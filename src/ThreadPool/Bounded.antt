-- ===== src/ThreadPool/Bounded.antt =====
-- How many tasks a pool accepts (ThreadPool.cpp: runTask).
use cc_server.Prelude.{
  ℕ, ◌≤◌, ◌<◌, ◌≡◌, refl, ap, ◌∙◌, [], ◌∷◌, ◌++◌, if◌then◌else◌, ltb, arith, length, length-append,
  true,
}
use cc_server.Prelude.Outcome.{ok}
use cc_server.ThreadPool.{
  ThreadPool, create, outside, waiting, System, begin_task, test_queue, Step, calls, tests, wakes,
  Reach, here, more,
}

module _ (Task : Type 0) where
  -- What holds of a pool with threads.
  pub record Inv (pool : ThreadPool Task) (s : System Task) : Type 0 where
    pub same_limit : s.pool.max_queue_size ≡ pool.max_queue_size
    pub same_threads : s.pool.threads ≡ pool.threads
    pub running : s.pool.running ≡ true
    pub bounded : length s.pool.task_queue ≤ s.pool.max_queue_size
    pub in_order : s.pool.task_queue ≡ s.accepted
    pub none_ran : s.pool.ran ≡ []

  abbrev pub around : ThreadPool Task → System Task
  around pool = record { pool = pool; places = λ thread. outside; accepted = [] }

  step-Inv :
      (pool : ThreadPool Task) (s s' : System Task)
      → 0 < pool.threads
      → Inv pool s
      → Step Task s s'
      → Inv pool s'
  unfolding begin_task test_queue
  step-Inv pool s s' some_threads v (calls thread task at e) = record {
    same_limit = ground (arith, e, v.running, v.same_threads, v.same_limit);
    same_threads = ground (arith, e, v.running, v.same_threads);
    running = ground (arith, e, v.running, v.same_threads);
    bounded = ground (arith, e, v.running, v.same_threads, v.bounded);
    in_order = ground (arith, e, v.running, v.same_threads, v.in_order);
    none_ran = ground (arith, e, v.running, v.same_threads, v.none_ran);
  }
  step-Inv pool s s' some_threads v (tests thread task at e) =
      let grown = length-append s.pool.task_queue (task ∷ []) in
      record {
        same_limit = ground (arith, e, v.same_limit);
        same_threads = ground (arith, e, v.same_threads);
        running = ground (arith, e, v.running);
        bounded = ground (arith, e, v.bounded, grown);
        in_order = ground (arith, e, v.in_order);
        none_ran = ground (arith, e, v.none_ran);
      }
  step-Inv pool s s' some_threads v (wakes thread task at e) = rw e (record {
    same_limit = v.same_limit;
    same_threads = v.same_threads;
    running = v.running;
    bounded = v.bounded;
    in_order = v.in_order;
    none_ran = v.none_ran;
  })

  Reach-Inv :
      (pool : ThreadPool Task) (s t : System Task)
      → 0 < pool.threads
      → Inv pool s
      → Reach Task s t
      → Inv pool t
  Reach-Inv pool s t some_threads v here = v
  Reach-Inv pool s t some_threads v (more earlier t' r step) =
      step-Inv pool earlier t' some_threads (Reach-Inv pool s earlier some_threads v r) step

  -- A pool with threads accepts as many tasks as its queue has room for, and no more: in every state
  -- that threads calling runTask can come to, the queue holds the tasks whose call returned, in order,
  -- and no more than the limit; no task was run; and a thread that tests the queue returns with its
  -- task accepted if there is room, and waits otherwise.
  pub accepted_lem :
      (num_thread max_queue_size : ℕ) (pool : ThreadPool Task) (s : System Task) (thread : ℕ)
      (task : Task)
      → 0 < num_thread
      → create Task num_thread max_queue_size ≡ ok pool
      → Reach Task (around pool) s
      → (s.pool.task_queue ≡ s.accepted)
        × (length s.accepted ≤ max_queue_size)
        × (s.pool.ran ≡ [])
        × ((test_queue Task thread task s).accepted ≡ (
            if ltb (length s.accepted) max_queue_size
            then s.accepted ++ (task ∷ [])
            else s.accepted))
        × ((test_queue Task thread task s).places thread
            ≡ (if ltb (length s.accepted) max_queue_size then outside else waiting task))
  unfolding create test_queue
  accepted_lem num_thread max_queue_size pool s thread task some_threads made r =
      let start : Inv pool (around pool) = record {
        same_limit = refl;
        same_threads = refl;
        running = ground (arith, made);
        bounded = ground (arith, made);
        in_order = ground (arith, made);
        none_ran = ground (arith, made);
      } in
      let v = Reach-Inv pool (around pool) s (ground (arith, made)) start r in
      let limit : s.pool.max_queue_size ≡ max_queue_size = v.same_limit ∙ ground (arith, made) in
      let same = ap length v.in_order in
      (
        v.in_order,
        omega (arith, v.bounded, limit, same),
        v.none_ran,
        ground (arith, limit, same),
        ground (arith, limit, same),
      )
