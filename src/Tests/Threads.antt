-- ===== src/Tests/Threads.antt =====
-- A thread whose owner waits at the latch when the new thread begins.
use cc_server.Prelude.{ℕ, ◌≡◌, refl, List, [], true, arith}
use cc_server.Prelude.Outcome.{ok}
use cc_server.CountDownLatch.{returned}
use cc_server.Thread.{create, set_default_name, begin_start, end_start}
use cc_server.Thread.Start.{
  Starting, Steps, Reach, here, step, creates, waiting, finished, fresh, unborn, born, place,
}
use cc_server.Thread.Returns.{start_returns}

abbrev nameless : ℕ → List ℕ
nameless n = []

abbrev created : Starting
created = record { thread = (create nameless 0 []).0; owner = fresh; child = unborn }

abbrev begun : Starting
begun = record { thread = record created.thread { started = true }; owner = waiting; child = born }

begun-Reach : Reach 7 begun
unfolding begin_start create set_default_name
begun-Reach = step (here nameless 0 []) (creates begun.thread refl refl refl)

start_returns_example :
    (place begun ≡ returned → end_start begun.thread ≡ ok begun.thread)
    × ((t : Starting) × Steps 7 begun t
        × (t.owner ≡ finished)
        × (t.thread.tid ≡ 7)
        × (t.thread.started ≡ true))
start_returns_example = start_returns 7 begun (omega arith) begun-Reach refl
