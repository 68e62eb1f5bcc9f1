-- ===== src/ThreadPool.antt =====
-- ThreadPool.h and ThreadPool.cpp: a bounded queue of tasks. The sources declare stop, take and
-- runInThread and define none of them, and no thread of the pool is started, so that nothing but
-- runTask changes the queue.
pub mod Bounded
use cc_server.Prelude.{
  ℕ, Bool, true, List, [], ◌∷◌, ◌++◌, ltb, leb, ◌==◌, ◌≡◌, if◌then◌else◌, length,
}
use cc_server.Prelude.Outcome.{Outcome, ok, assert, ◌>>=◌, ◌>>◌}
use cc_server.Prelude.Map.{update}

module _ (Task : Type 0) where
  -- `threads` is the size of `threads_`, and `ran` are the tasks that runTask ran itself.
  pub record ThreadPool : Type 0 where
    pub threads : ℕ
    pub max_queue_size : ℕ
    pub task_queue : List Task
    pub running : Bool
    pub ran : List Task

  unfoldable pub create : ℕ → ℕ → Outcome ThreadPool
  create num_thread max_queue_size = do
    assert (ltb 0 max_queue_size)
    ok (record {
      threads = num_thread;
      max_queue_size = max_queue_size;
      task_queue = [];
      running = true;
      ran = [];
    })

  -- Where a thread is in `runTask`: outside, at the test of the `while` with the mutex, or in the wait
  -- for `notFull_`.
  pub data Place : Type 0 where
    outside : Place
    testing waiting : Task → Place

  -- A pool among threads that call `runTask`; `accepted` are the tasks whose call has returned.
  pub record System : Type 0 where
    pub pool : ThreadPool
    pub places : ℕ → Place
    pub accepted : List Task

  -- `runTask` up to the mutex.
  unfoldable pub begin_task : ℕ → Task → System → Outcome System
  begin_task thread task s = do
    assert s.pool.running
    if s.pool.threads == 0
        then ok (record s {
          pool = record s.pool { ran = s.pool.ran ++ (task ∷ []) };
          accepted = s.accepted ++ (task ∷ []);
        })
        else ok (record s { places = update s.places thread (testing task) })

  -- One test of the `while`, and what follows it.
  unfoldable pub test_queue : ℕ → Task → System → System
  test_queue thread task s =
      if leb s.pool.max_queue_size (length s.pool.task_queue)
      then record s { places = update s.places thread (waiting task) }
      else record s {
        pool = record s.pool { task_queue = s.pool.task_queue ++ (task ∷ []) };
        places = update s.places thread outside;
        accepted = s.accepted ++ (task ∷ []);
      }

  -- What the threads do, one step at a time. The wait may end without a notification.
  pub data Step (s s' : System) : Type 0 where
    calls :
        (thread : ℕ) (task : Task)
        → s.places thread ≡ outside
        → begin_task thread task s ≡ ok s'
        → Step s s'
    tests :
        (thread : ℕ) (task : Task)
        → s.places thread ≡ testing task
        → s' ≡ test_queue thread task s
        → Step s s'
    wakes :
        (thread : ℕ) (task : Task)
        → s.places thread ≡ waiting task
        → s' ≡ record s { places = update s.places thread (testing task) }
        → Step s s'

  pub data Reach (s : System) : System → Type 0 where
    here : Reach s s
    more : (t u : System) → Reach s t → Step t u → Reach s u
