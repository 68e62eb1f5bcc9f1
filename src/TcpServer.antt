-- ===== src/TcpServer.antt =====
-- TcpServer.h and TcpServer.cpp: a server with a loop per thread. The servers of the loops are those
-- of TcpServerSingle.
pub mod Start
use cc_server.Prelude.{ℕ, zero, suc, ◌+◌, Bool, true, false, not, List, [], ltb, if◌then◌else◌}
use cc_server.Prelude.Outcome.{Outcome, ok, assert, in_bounds, ◌>>=◌, ◌>>◌}
use cc_server.Prelude.Map.{update}
use cc_server.Thread
use cc_server.Thread.{Thread, join}

-- `event_loops` tells which of the `loops` pointers of `eventLoops_` are not null, and `threads` has
-- the thread made for each index. `listens` is whether the base server was started.
pub record TcpServer : Type 0 where
  pub num_threads : ℕ
  pub started : Bool
  pub listens : Bool
  pub loops : ℕ
  pub event_loops : ℕ → Bool
  pub threads : ℕ → Thread

unfoldable pub create : (ℕ → Thread) → TcpServer
create threads = record {
  num_threads = 1;
  started = false;
  listens = false;
  loops = 0;
  event_loops = λ i. false;
  threads = threads;
}

unfoldable pub set_num_thread : ℕ → TcpServer → Outcome TcpServer
set_num_thread n s = do
  assert (ltb 0 n)
  assert (not s.started)
  ok (record s { num_threads = n; loops = n })

-- `start`: the server, and whether `startInLoop` is handed to the base loop.
unfoldable pub start : TcpServer → TcpServer × Bool
start s = if s.started then (s, false) else (record s { started = true }, true)

-- `startInLoop` up to its loop.
unfoldable pub start_base : TcpServer → TcpServer
start_base s = record s { listens = true }

-- `new Thread(...)` in the loop of `startInLoop`, where `print` and `num_created` are for its name.
unfoldable pub make_thread : (ℕ → List ℕ) → ℕ → ℕ → TcpServer → TcpServer
make_thread print num_created i s = record s {
  threads = update s.threads i (Thread.create print num_created []).0;
}

-- The test of the `while`: whether `eventLoops_[i]` is there.
unfoldable pub has_loop : ℕ → TcpServer → Outcome Bool
has_loop i s = do in_bounds (ltb i s.loops); ok (s.event_loops i)

-- `runInThread` makes its loop known, and takes it back at its end.
unfoldable pub publish_loop : ℕ → TcpServer → Outcome TcpServer
publish_loop i s = do
  in_bounds (ltb i s.loops)
  ok (record s { event_loops = update s.event_loops i true })

unfoldable pub clear_loop : ℕ → TcpServer → Outcome TcpServer
clear_loop i s = do
  in_bounds (ltb i s.loops)
  ok (record s { event_loops = update s.event_loops i false })
