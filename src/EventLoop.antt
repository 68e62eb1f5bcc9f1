-- ===== src/EventLoop.antt =====
-- EventLoop.h and EventLoop.cpp: the queue of tasks that any thread can hand to the loop's thread,
-- and the eventfd that wakes the loop for them.
pub mod Threads
pub mod Wakeup
pub mod Progress
pub mod Timers
pub mod Setup
use cc_server.Prelude.{Bool, true, false, not, ◌||◌, ◌≡◌, List, [], ◌∷◌, ◌++◌, if◌then◌else◌}
use cc_server.Prelude.Outcome.{Outcome, ok, assert, ◌>>=◌, ◌>>◌}

-- eventfd(2): a counter that is readable once it was written to. A write that finds the counter
-- full fails, and leaves it readable.
pub record EventFd : Type 1 where
  pub Counter : Type 0
  pub fresh : Counter
  pub write_one : Counter → Counter
  pub drain : Counter → Counter
  pub readable : Counter → Bool
  pub readable-write_one : (c : Counter) → readable (write_one c) ≡ true

module _ (eventfd : EventFd) (Task : Type 0) where
  open eventfd use {Counter, fresh, write_one, drain}

  -- `in_thread` below is `isInLoopThread()`. Locking `mutex_` makes each change of
  -- `pendingTasks_` one step.
  pub record Loop : Type 0 where
    pub looping : Bool
    pub quitting : Bool
    pub doing_pending_tasks : Bool
    pub pending_tasks : List Task
    pub wakeup_fd : Counter

  unfoldable pub create : Loop
  create = record {
    looping = false;
    quitting = false;
    doing_pending_tasks = false;
    pending_tasks = [];
    wakeup_fd = fresh;
  }

  unfoldable pub wakeup : Loop → Loop
  wakeup l = record l { wakeup_fd = write_one l.wakeup_fd }

  unfoldable pub handle_read : Loop → Loop
  handle_read l = record l { wakeup_fd = drain l.wakeup_fd }

  -- `queueInLoop` while it holds `mutex_`.
  unfoldable pub push_task : Task → Loop → Loop
  push_task task l = record l { pending_tasks = l.pending_tasks ++ (task ∷ []) }

  -- Its test after that.
  unfoldable pub needs_wakeup : Bool → Loop → Bool
  needs_wakeup in_thread l = not in_thread || l.doing_pending_tasks

  -- The whole of it, where nothing comes between. Threads has the steps of a thread among others.
  unfoldable pub queue_in_loop : Bool → Task → Loop → Loop
  unfolding wakeup push_task needs_wakeup
  queue_in_loop in_thread task l =
      let queued = push_task task l in
      if needs_wakeup in_thread queued then wakeup queued else queued

  -- The loop after the call, and the tasks that ran in it.
  unfoldable pub run_in_loop : Bool → Task → Loop → Loop × List Task
  run_in_loop in_thread task l =
      if in_thread then (l, task ∷ []) else (queue_in_loop in_thread task l, [])

  -- `quit` before its wakeup.
  unfoldable pub set_quit : Loop → Outcome Loop
  set_quit l = do assert (not l.quitting); ok (record l { quitting = true })

  unfoldable pub quit : Bool → Loop → Outcome Loop
  unfolding wakeup set_quit
  quit in_thread l = do l' ← set_quit l; if in_thread then ok l' else ok (wakeup l')

  -- `loop()` up to its `while`.
  unfoldable pub begin_loop : Loop → Outcome Loop
  begin_loop l = do assert (not l.looping); ok (record l { looping = true; quitting = false })

  -- What follows the `while`.
  unfoldable pub end_loop : Loop → Loop
  end_loop l = record l { looping = false }

  -- `doPendingTasks()` up to its `for`: the tasks taken, and the loop without them.
  unfoldable pub take_pending_tasks : Loop → List Task × Loop
  take_pending_tasks l =
      (l.pending_tasks, record l { pending_tasks = []; doing_pending_tasks = true })

  -- What follows the `for`.
  unfoldable pub finish_pending_tasks : Loop → Loop
  finish_pending_tasks l = record l { doing_pending_tasks = false }
