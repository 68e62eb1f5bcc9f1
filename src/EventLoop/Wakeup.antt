-- ===== src/EventLoop/Wakeup.antt =====
-- No task and no call of `quit` is slept through for good (EventLoop.cpp: queueInLoop, quit).
use cc_server.Prelude.{
  inl, inr, Bool-cases, ltb, ◌||◌, Bool, true, false, ◌≡◌, ◌≢◌, refl, ap, sym, ◌∙◌, List, [], ◌∷◌,
  ◌++◌, arith, append_assoc, append-nil,
}
use cc_server.EventLoop.{
  EventFd, push_task, needs_wakeup, set_quit, wakeup, begin_loop, end_loop, take_pending_tasks,
  finish_pending_tasks, handle_read,
}
use cc_server.EventLoop.Threads.{
  Phase, outside, checking, polling, handling, running, System, start, with_task, Own, begins,
  goes_on, leaves, wakes, reads_eventfd, takes, runs, finishes, InCallback, Env, other_queues,
  own_queues, other_quits, own_quits, wakes_up, other_event, Reach, here, own, env,
}

-- The tasks taken that did not run yet.
abbrev pub batch : {Task : Type 0} → Phase Task → List Task
batch (running rest) = rest
batch _ = []

abbrev pub is_running : {Task : Type 0} → Phase Task → Bool
is_running (running rest) = true
is_running _ = false

-- While the active channels are handled the eventfd may be read, since the tasks come next.
abbrev pub may_sleep : {Task : Type 0} → Phase Task → Bool
may_sleep handling = false
may_sleep _ = true

module _ (eventfd : EventFd) (Task : Type 0) where
  open eventfd use {readable}

  -- The eventfd is readable, or a call that queued a task or set `quit_` is to make it so.
  abbrev pub is_woken : System eventfd Task → Bool
  is_woken s = readable s.loop.wakeup_fd || ltb 0 s.waking

  pub record IsAwake (s : System eventfd Task) : Type 0 where
    pub tasks : may_sleep s.phase ≡ true → s.loop.pending_tasks ≢ [] → is_woken s ≡ true
    pub quits : s.phase ≡ polling → s.loop.quitting ≡ true → is_woken s ≡ true
    pub doing : s.loop.doing_pending_tasks ≡ is_running s.phase
    pub accounted : s.done ++ (batch s.phase ++ s.loop.pending_tasks) ≡ s.queued

  Own-IsAwake : {s t : System eventfd Task} → Own eventfd Task s t → IsAwake s → IsAwake t
  unfolding begin_loop end_loop handle_read take_pending_tasks finish_pending_tasks
  Own-IsAwake (begins l p e q) a = rw q (ground (arith, p, e, a.tasks, a.doing, a.accounted))
  Own-IsAwake (goes_on p e q) a = rw q (ground (arith, a.tasks, a.doing, a.accounted))
  Own-IsAwake (leaves p e q) a = rw q (ground (arith, a.tasks, a.doing, a.accounted))
  Own-IsAwake (wakes p e q) a = rw q (ground (arith, a.tasks, a.doing, a.accounted))
  Own-IsAwake (reads_eventfd p q) a = rw q (ground (arith, a.tasks, a.doing, a.accounted))
  Own-IsAwake {s} (takes p q) a =
      rw q (ground (arith, a.tasks, a.doing, a.accounted, append-nil s.loop.pending_tasks))
  Own-IsAwake {s} (runs task rest p q) a = rw q (
      ground (
        arith,
        a.tasks,
        a.doing,
        a.accounted,
        append_assoc s.done (task ∷ []) (rest ++ s.loop.pending_tasks),
      ))
  Own-IsAwake (finishes p q) a = rw q (ground (arith, a.tasks, a.doing, a.accounted))

  -- A callback that may be slept on is a task.
  inside_task :
      (p : Phase Task) → InCallback eventfd Task p → may_sleep p ≡ true → is_running p ≡ true
  inside_task handling h e = e
  inside_task (running rest) h e = refl
  inside_task outside h e = absurd h
  inside_task checking h e = absurd h
  inside_task polling h e = absurd h

  inside_awake : (p : Phase Task) → InCallback eventfd Task p → p ≢ polling
  inside_awake handling h e = cc
  inside_awake (running rest) h e = cc
  inside_awake outside h e = h
  inside_awake checking h e = h
  inside_awake polling h e = h

  with_task-IsAwake :
      (s : System eventfd Task) (in_thread : Bool) (task : Task)
      → (in_thread ≡ true → InCallback eventfd Task s.phase)
      → IsAwake s
      → IsAwake (with_task eventfd Task s in_thread task)
  unfolding push_task needs_wakeup
  with_task-IsAwake s in_thread task inside a = record {
    tasks = λ m ne. elim (Bool-cases in_thread) [
      | inl e ↦ ground (arith, e, a.doing, inside_task s.phase (inside e) m)
      | inr other ↦ ground (arith, other)
    ];
    quits = λ p set. elim (Bool-cases in_thread) [
      | inl e ↦ absurd (inside_awake s.phase (inside e) p)
      | inr other ↦ ground (arith, other)
    ];
    doing = ground (arith, a.doing);
    accounted =
        ap (λ l. s.done ++ (batch s.phase ++ l)) (ground arith)
        ∙ sym
            (ap (λ l. s.done ++ l) (append_assoc (batch s.phase) s.loop.pending_tasks (task ∷ [])))
        ∙ sym (append_assoc s.done (batch s.phase ++ s.loop.pending_tasks) (task ∷ []))
        ∙ ap (λ l. l ++ (task ∷ [])) a.accounted;
  }

  Env-IsAwake : {s t : System eventfd Task} → Env eventfd Task s t → IsAwake s → IsAwake t
  unfolding set_quit wakeup
  Env-IsAwake {s} (other_queues task q) a = rw q (with_task-IsAwake s false task (λ e. cc) a)
  Env-IsAwake {s} (own_queues task inside q) a =
      rw q (with_task-IsAwake s true task (λ e. inside) a)
  Env-IsAwake {s} (other_quits l e q) a = rw q (ground (arith, e, a.tasks, a.doing, a.accounted))
  Env-IsAwake {s} (own_quits l inside e q) a =
      rw q (ground (arith, e, inside, a.tasks, a.doing, a.accounted))
  Env-IsAwake {s} (wakes_up n e q) a =
      rw q
        (ground (arith, a.tasks, a.doing, a.accounted, eventfd.readable-write_one s.loop.wakeup_fd))
  Env-IsAwake (other_event p q) a = rw q (ground (arith, a.tasks, a.doing, a.accounted))

  start-IsAwake : IsAwake (start eventfd Task)
  unfolding start
  start-IsAwake = ground arith

  -- In every state that a loop and the threads around it can come to, if the loop's thread is in
  -- epoll_wait with a task pending or `quit_` set, then the eventfd is readable, so that epoll_wait
  -- returns, or a call of `queueInLoop` or `quit` has yet to do its wakeup. The same holds for tasks
  -- wherever the thread is outside the callbacks of the channels. doingPendingTasks_ is set just while
  -- tasks run; and the tasks that ran, those taken and those pending are together the tasks queued, in
  -- order, each once. A callback or task queues on the loop's own thread only inside `loop()`.
  pub Reach-IsAwake : {s : System eventfd Task} → Reach eventfd Task s → IsAwake s
  Reach-IsAwake here = start-IsAwake
  Reach-IsAwake (own r st) = Own-IsAwake st (Reach-IsAwake r)
  Reach-IsAwake (env r st) = Env-IsAwake st (Reach-IsAwake r)
