-- ===== src/EventLoop/Threads.antt =====
-- The loop's thread among others, step by step (EventLoop.cpp: loop, doPendingTasks). The tasks that
-- were queued and those that ran are kept as lists. `queueInLoop` and `quit` are two steps, since
-- `wakeup` is called after `mutex_` is released.
use cc_server.Prelude.{ℕ, suc, ◌+◌, Bool, true, false, ◌≡◌, List, [], ◌∷◌, ◌++◌, if◌then◌else◌}
use cc_server.Prelude.Outcome.{ok}
use cc_server.EventLoop.{
  EventFd, Loop, create, push_task, needs_wakeup, set_quit, wakeup, begin_loop, end_loop,
  take_pending_tasks, finish_pending_tasks, handle_read,
}

-- Where the loop's thread is: not in `loop()`, before the test of `quit_`, in epoll_wait, in the
-- callbacks of the active channels, or in the loop over the tasks that are listed.
pub data Phase (Task : Type 0) : Type 0 where
  outside checking polling handling : Phase Task
  running : List Task → Phase Task

module _ (eventfd : EventFd) (Task : Type 0) where
  open eventfd use {readable}

  -- `waking` is how many calls of `queueInLoop` and `quit` are before their `wakeup`, and `quits` how
  -- many calls of `quit` there were.
  pub record System : Type 0 where
    pub loop : Loop eventfd Task
    pub phase : Phase Task
    pub queued : List Task
    pub done : List Task
    pub waking : ℕ
    pub quits : ℕ

  unfoldable pub start : System
  unfolding create
  start = record {
    loop = create eventfd Task;
    phase = outside;
    queued = [];
    done = [];
    waking = 0;
    quits = 0;
  }

  abbrev pub with_task : System → Bool → Task → System
  with_task s in_thread t = record s {
    loop = push_task eventfd Task t s.loop;
    queued = s.queued ++ (t ∷ []);
    waking =
        (if needs_wakeup eventfd Task in_thread (push_task eventfd Task t s.loop)
          then suc s.waking
          else s.waking);
  }

  -- What the loop's thread does by itself. epoll_wait returns at least when the eventfd is readable.
  pub data Own (s t : System) : Type 0 where
    begins :
        (l : Loop eventfd Task)
        → s.phase ≡ outside
        → begin_loop eventfd Task s.loop ≡ ok l
        → t ≡ record s { loop = l; phase = checking }
        → Own s t
    goes_on :
        s.phase ≡ checking → s.loop.quitting ≡ false → t ≡ record s { phase = polling } → Own s t
    leaves :
        s.phase ≡ checking
        → s.loop.quitting ≡ true
        → t ≡ record s { loop = end_loop eventfd Task s.loop; phase = outside }
        → Own s t
    wakes :
        s.phase ≡ polling
        → readable s.loop.wakeup_fd ≡ true
        → t ≡ record s { phase = handling }
        → Own s t
    reads_eventfd :
        s.phase ≡ handling → t ≡ record s { loop = handle_read eventfd Task s.loop } → Own s t
    takes :
        s.phase ≡ handling
        → t ≡ record s {
          loop = (take_pending_tasks eventfd Task s.loop).1;
          phase = running (take_pending_tasks eventfd Task s.loop).0;
        }
        → Own s t
    runs :
        (task : Task) (rest : List Task)
        → s.phase ≡ running (task ∷ rest)
        → t ≡ record s { phase = running rest; done = s.done ++ (task ∷ []) }
        → Own s t
    finishes :
        s.phase ≡ running []
        → t ≡ record s { loop = finish_pending_tasks eventfd Task s.loop; phase = checking }
        → Own s t

  -- Where callbacks and tasks run, on the loop's thread.
  abbrev pub InCallback : Phase Task → Type 0
  InCallback handling = Unit {0}
  InCallback (running rest) = Unit {0}
  InCallback _ = ⊥

  -- What other threads, other descriptors, callbacks and tasks do. The loop's thread may go on here
  -- before the wakeup of its own call, which allows more than the code does.
  pub data Env (s t : System) : Type 0 where
    other_queues : (task : Task) → t ≡ with_task s false task → Env s t
    own_queues : (task : Task) → InCallback s.phase → t ≡ with_task s true task → Env s t
    other_quits :
        (l : Loop eventfd Task)
        → set_quit eventfd Task s.loop ≡ ok l
        → t ≡ record s { loop = l; waking = suc s.waking; quits = s.quits + 1 }
        → Env s t
    own_quits :
        (l : Loop eventfd Task)
        → InCallback s.phase
        → set_quit eventfd Task s.loop ≡ ok l
        → t ≡ record s { loop = l; quits = s.quits + 1 }
        → Env s t
    wakes_up :
        (n : ℕ)
        → s.waking ≡ suc n
        → t ≡ record s { loop = wakeup eventfd Task s.loop; waking = n }
        → Env s t
    other_event : s.phase ≡ polling → t ≡ record s { phase = handling } → Env s t

  -- The states that a new loop can come to.
  pub data Reach : System → Type 0 where
    here : Reach start
    own : {s t : System} → Reach s → Own s t → Reach t
    env : {s t : System} → Reach s → Env s t → Reach t

  pub data OwnSteps : System → System → Type 0 where
    stop : {s : System} → OwnSteps s s
    next : {s t u : System} → Own s t → OwnSteps t u → OwnSteps s u
