-- ===== src/Tests/LoopThreads.antt =====
-- A loop in a thread of its own, destroyed before the loop runs.
use cc_server.Prelude.{ℕ, ◌≡◌, ◌<◌, refl, [], false}
use cc_server.Prelude.Int.{pos}
use cc_server.CountDownLatch
use cc_server.Thread.{Thread}
use cc_server.EventLoopThread.{EventLoopThread, create, Moves, joining, joined, entering}
use cc_server.EventLoopThread.Destroy.{destroy_hangs}
use cc_server.Tests.Kernel.{counter}

abbrev new_thread : Thread
new_thread = record {
  started = false;
  joined = false;
  tid = 0;
  name = [];
  latch = CountDownLatch.create (pos 1);
  detached = false;
}

destroy_hangs_example :
    ((t : EventLoopThread counter ℕ) × Moves counter ℕ (create counter ℕ new_thread) t
      × (t.owner ≡ joining)
      × (t.child ≡ entering))
    × ((t u : EventLoopThread counter ℕ)
        → t.owner ≡ joining
        → t.child ≡ entering
        → Moves counter ℕ t u
        → u.owner ≡ joined
        → t.system.quits < u.system.quits)
destroy_hangs_example = destroy_hangs counter ℕ new_thread refl refl
