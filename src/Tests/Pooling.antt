-- ===== src/Tests/Pooling.antt =====
-- A pool of one thread that accepts one task.
use cc_server.Prelude.{ℕ, ◌≤◌, ◌≡◌, refl, [], ◌∷◌, true, arith, length}
use cc_server.Prelude.Map.{update}
use cc_server.ThreadPool.{
  ThreadPool, create, outside, testing, waiting, System, begin_task, test_queue, calls, tests,
  Reach, here, more,
}
use cc_server.ThreadPool.Bounded.{around, accepted_lem}

abbrev small : ThreadPool ℕ
small = record { threads = 1; max_queue_size = 1; task_queue = []; running = true; ran = [] }

abbrev called : System ℕ
called = record (around ℕ small) { places = update (λ thread. outside) 7 (testing 3) }

-- Thread 7 gave the task 3.
abbrev accepted : System ℕ
accepted = record {
  pool = record small { task_queue = 3 ∷ [] };
  places = update called.places 7 outside;
  accepted = 3 ∷ [];
}

accepted-Reach : Reach ℕ (around ℕ small) accepted
unfolding begin_task test_queue
accepted-Reach =
    more called accepted (more (around ℕ small) called here (calls 7 3 refl refl))
      (tests 7 3 refl refl)

accepted_lem_example :
    (accepted.pool.task_queue ≡ accepted.accepted)
    × (length accepted.accepted ≤ 1)
    × (accepted.pool.ran ≡ [])
    × ((test_queue ℕ 8 4 accepted).accepted ≡ 3 ∷ [])
    × ((test_queue ℕ 8 4 accepted).places 8 ≡ waiting 4)
unfolding create
accepted_lem_example = accepted_lem ℕ 1 1 small accepted 8 4 (omega arith) refl accepted-Reach
