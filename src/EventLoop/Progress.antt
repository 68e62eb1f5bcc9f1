-- ===== src/EventLoop/Progress.antt =====
-- What the loop's thread does about the tasks queued, and what is lost before `loop()` runs
-- (EventLoop.cpp: loop, doPendingTasks, queueInLoop).
use cc_server.Prelude.{
  ℕ, suc, Bool-cases, inl, inr, ◌-◌, ◌⊎◌, true, false, ◌≡◌, ◌≢◌, refl, ap, sym, ◌∙◌, List, [], ◌∷◌,
  ◌++◌, arith, append_assoc, append-nil,
}
use cc_server.Prelude.Outcome.{ok, ◌>>=◌}
use cc_server.EventLoop.{
  EventFd, Loop, queue_in_loop, quit, begin_loop, take_pending_tasks, handle_read, wakeup,
  push_task, needs_wakeup, set_quit,
}
use cc_server.EventLoop.Threads.{
  polling, handling, running, System, wakes, reads_eventfd, takes, runs, OwnSteps, stop, next,
  Reach,
}
use cc_server.EventLoop.Wakeup.{batch, Reach-IsAwake}

module _ (eventfd : EventFd) (Task : Type 0) where
  open eventfd use {readable}

  -- The tasks taken run one after the other.
  run_batch :
      (rest : List Task) (s : System eventfd Task)
      → s.phase ≡ running rest
      → (t : System eventfd Task) × OwnSteps eventfd Task s t
        × (t.done ≡ s.done ++ rest)
        × (t.loop ≡ s.loop)
  run_batch [] s p = (s, stop, sym (append-nil s.done), refl)
  run_batch (task ∷ rest) s p =
      let u : System eventfd Task = record s {
        phase = running rest;
        done = s.done ++ (task ∷ []);
      } in
      let (t, steps, d, l) = run_batch rest u refl in
      (t, next (runs task rest p refl) steps, d ∙ append_assoc s.done (task ∷ []) rest, l)

  -- Once the eventfd is readable, the thread goes from epoll_wait to the end of the tasks.
  woken_run :
      (s : System eventfd Task)
      → s.phase ≡ polling
      → readable s.loop.wakeup_fd ≡ true
      → s.done ++ (batch s.phase ++ s.loop.pending_tasks) ≡ s.queued
      → (t : System eventfd Task) × OwnSteps eventfd Task s t
        × (t.done ≡ s.queued)
        × (t.loop.pending_tasks ≡ [])
  unfolding take_pending_tasks handle_read
  woken_run s p awake accounted =
      let s₁ : System eventfd Task = record s { phase = handling } in
      let s₂ : System eventfd Task = record s₁ { loop = handle_read eventfd Task s₁.loop } in
      let s₃ : System eventfd Task = record s₂ {
        loop = (take_pending_tasks eventfd Task s₂.loop).1;
        phase = running (take_pending_tasks eventfd Task s₂.loop).0;
      } in
      let (t, steps, d, l) = run_batch s.loop.pending_tasks s₃ refl in
      (
        t,
        next (wakes p awake refl) (next (reads_eventfd refl refl) (next (takes refl refl) steps)),
        d ∙ ap (λ b. s.done ++ (batch b ++ s.loop.pending_tasks)) (sym p) ∙ accounted,
        ground (arith, l),
      )

  -- The eventfd is readable, or one of the calls that are before their wakeup does it.
  abbrev pub Woken : System eventfd Task → System eventfd Task → Type 0
  Woken s u =
      ((readable s.loop.wakeup_fd ≡ true) × (u ≡ s))
      ⊎ ((n : ℕ) × (s.waking ≡ suc n)
          × (u ≡ record s { loop = wakeup eventfd Task s.loop; waking = n }))

  -- From every state that a loop can come to in which its thread is in epoll_wait and tasks are
  -- pending, the thread goes on to a state where every task queued so far ran, in order, with nothing
  -- else that makes epoll_wait return: by itself if the eventfd is readable, and otherwise after the
  -- wakeup of a call of `queueInLoop` or `quit` that has yet to do it.
  pub pending_tasks_run :
      (s : System eventfd Task)
      → Reach eventfd Task s
      → s.phase ≡ polling
      → s.loop.pending_tasks ≢ []
      → (u t : System eventfd Task) × Woken s u
        × OwnSteps eventfd Task u t
        × (t.done ≡ s.queued)
        × (t.loop.pending_tasks ≡ [])
  unfolding wakeup
  pending_tasks_run s r p some_pending =
      let a = Reach-IsAwake eventfd Task r in
      let woken = a.tasks (ground (arith, p)) some_pending in
      elim (Bool-cases (readable s.loop.wakeup_fd)) [
        | inl awake ↦
            let (t, steps, d, l) = woken_run s p awake a.accounted in
            (s, t, inl (awake, refl), steps, d, l)
        | inr asleep ↦
            let n = s.waking - 1 in
            let before : s.waking ≡ suc n = ground (arith, woken, asleep) in
            let u : System eventfd Task = record s {
              loop = wakeup eventfd Task s.loop;
              waking = n;
            } in
            let (t, steps, d, l) =
              woken_run u p (eventfd.readable-write_one s.loop.wakeup_fd) a.accounted in
            (u, t, inr (n, before, refl), steps, d, l)
      ]

  -- What the loop's own thread queues before `loop()` is not woken for: the loop enters epoll_wait
  -- with the task pending and the eventfd as unreadable as before. A call of `quit` before
  -- `loop()` is undone.
  pub early_calls_lost :
      (l : Loop eventfd Task) (task : Task)
      → l.looping ≡ false
      → l.quitting ≡ false
      → l.doing_pending_tasks ≡ false
      → readable l.wakeup_fd ≡ false
      → (l' : Loop eventfd Task) × ((quit eventfd Task true (queue_in_loop eventfd Task true task l)
            >>= begin_loop eventfd Task)
          ≡ ok l')
        × (l'.pending_tasks ≢ [])
        × (readable l'.wakeup_fd ≡ false)
        × (l'.quitting ≡ false)
  unfolding queue_in_loop quit push_task needs_wakeup set_quit begin_loop
  early_calls_lost l task a b c d = (
    record l { looping = true; quitting = false; pending_tasks = l.pending_tasks ++ (task ∷ []) },
    ground arith,
    last l.pending_tasks,
    d,
    refl,
  )
    where
      last : (xs : List Task) → xs ++ (task ∷ []) ≢ []
      last [] e = cc
      last (x ∷ xs) e = cc
