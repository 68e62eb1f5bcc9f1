-- ===== src/EventLoopThread/Destroy.antt =====
-- The destructor before `loop()` (EventLoopThread.cpp).
use cc_server.Prelude.{ℕ, ◌≤◌, ◌<◌, ap, true, false, ◌≡◌, ◌≢◌, ◌⊎◌, inl, inr, refl, arith}
use cc_server.EventLoop
use cc_server.EventLoop.{
  EventFd, Loop, set_quit, begin_loop, wakeup, end_loop, handle_read, push_task, take_pending_tasks,
  finish_pending_tasks,
}
use cc_server.EventLoop.Threads
use cc_server.EventLoop.Threads.{
  System, Own, begins, goes_on, wakes, reads_eventfd, takes, runs, finishes, outside, checking, Env,
  other_queues, own_queues, other_quits, own_quits, wakes_up, other_event,
}
use cc_server.Thread.{Thread, begin_start, join}
use cc_server.EventLoopThread.{
  finding, using, joining, joined, constructing, entering, inside, left, ended, EventLoopThread,
  create, start_loop, publish_loop, clear_loop, destroy, Move, starts, finds, destroys, joins,
  publishes, enters, loops, leaves, clears, others, Moves, stay, move,
}

module _ (eventfd : EventFd) (Task : Type 0) where
  -- In `loop()`, with `quit_` clear.
  record Loops (s : System eventfd Task) : Type 0 where
    running : s.loop.quitting ≡ false
    within : s.phase ≢ outside

  Own-Loops : (s t : System eventfd Task) → Own eventfd Task s t → Loops s → Loops t
  unfolding handle_read take_pending_tasks finish_pending_tasks
  Own-Loops s t (begins l p e q) v = absurd (v.within p)
  Own-Loops s t (goes_on p r q) v = rw q record { running = r; within = λ e. cc }
  Own-Loops s t (Own.leaves p r q) v = absurd (cc (r, v.running))
  Own-Loops s t (wakes p r q) v = rw q record { running = v.running; within = λ e. cc }
  Own-Loops s t (reads_eventfd p q) v = rw q record { running = v.running; within = v.within }
  Own-Loops s t (takes p q) v = rw q record { running = v.running; within = λ e. cc }
  Own-Loops s t (runs task rest p q) v = rw q record { running = v.running; within = λ e. cc }
  Own-Loops s t (finishes p q) v = rw q record { running = v.running; within = λ e. cc }

  -- The destructor waits, and the thread does not know of it, unless `quit` was called more often
  -- than `n` times by others.
  abbrev Lost : ℕ → EventLoopThread eventfd Task → Type 0
  Lost n s =
      ((s.owner ≡ joining)
        × (n ≤ s.system.quits)
        × ((s.child ≡ entering) ⊎ ((s.child ≡ inside) × Loops s.system)))
      ⊎ (n < s.system.quits)

  elsewhere :
      (s : EventLoopThread eventfd Task)
      → (s.child ≡ entering) ⊎ ((s.child ≡ inside) × Loops s.system)
      → (s.child ≡ ended) ⊎ ((s.child ≡ constructing) ⊎ (s.child ≡ left))
      → ⊥
  elsewhere s v (inl c) = elim v [ inl e ↦ cc | inr (e, l) ↦ cc ]
  elsewhere s v (inr (inl c)) = elim v [ inl e ↦ cc | inr (e, l) ↦ cc ]
  elsewhere s v (inr (inr c)) = elim v [ inl e ↦ cc | inr (e, l) ↦ cc ]

  Own-quits : (s t : System eventfd Task) → Own eventfd Task s t → t.quits ≡ s.quits
  Own-quits s t (begins l p e q) = ap (λ x. x.quits) q
  Own-quits s t (goes_on p r q) = ap (λ x. x.quits) q
  Own-quits s t (Own.leaves p r q) = ap (λ x. x.quits) q
  Own-quits s t (wakes p r q) = ap (λ x. x.quits) q
  Own-quits s t (reads_eventfd p q) = ap (λ x. x.quits) q
  Own-quits s t (takes p q) = ap (λ x. x.quits) q
  Own-quits s t (runs task rest p q) = ap (λ x. x.quits) q
  Own-quits s t (finishes p q) = ap (λ x. x.quits) q

  -- What others do leaves the loop running, or is a call of `quit`.
  Env-Loops :
      (s t : System eventfd Task)
      → Env eventfd Task s t
      → ((t.quits ≡ s.quits) × (Loops s → Loops t)) ⊎ (s.quits < t.quits)
  unfolding push_task wakeup
  Env-Loops s t (other_queues task q) =
      inl (ap (λ x. x.quits) q, λ v. rw q record { running = v.running; within = v.within })
  Env-Loops s t (own_queues task p q) =
      inl (ap (λ x. x.quits) q, λ v. rw q record { running = v.running; within = v.within })
  Env-Loops s t (other_quits l e q) = inr (omega (arith, ap (λ x. x.quits) q))
  Env-Loops s t (own_quits l p e q) = inr (omega (arith, ap (λ x. x.quits) q))
  Env-Loops s t (wakes_up n e q) =
      inl (ap (λ x. x.quits) q, λ v. rw q record { running = v.running; within = v.within })
  Env-Loops s t (other_event p q) =
      inl (ap (λ x. x.quits) q, λ v. rw q record { running = v.running; within = λ e. cc })

  Move-quits :
      (s t : EventLoopThread eventfd Task) → Move eventfd Task s t → s.system.quits ≤ t.system.quits
  unfolding publish_loop clear_loop start_loop begin_start destroy set_quit join
  Move-quits s t (starts o e) = ground (arith, e)
  Move-quits s t (finds o k e) = omega (arith, ap (λ x. x.system.quits) e)
  Move-quits s t (destroys o e) = ground (arith, e)
  Move-quits s t (joins o c e) = omega (arith, ap (λ x. x.system.quits) e)
  Move-quits s t (publishes c e) = omega (arith, ap (λ x. x.system.quits) e)
  Move-quits s t (enters l c e q) = omega (arith, ap (λ x. x.system.quits) q)
  Move-quits s t (loops u c o p q) =
      omega (arith, Own-quits s.system u o, ap (λ x. x.system.quits) q)
  Move-quits s t (leaves u c o p q) =
      omega (arith, Own-quits s.system u o, ap (λ x. x.system.quits) q)
  Move-quits s t (clears c e) = omega (arith, ap (λ x. x.system.quits) e)
  Move-quits s t (others u e q) = elim (Env-Loops s.system u e) [
    | inl (same, keeps) ↦ omega (arith, same, ap (λ x. x.system.quits) q)
    | inr more ↦ omega (arith, more, ap (λ x. x.system.quits) q)
  ]

  Waiting-Lost :
      (n : ℕ) (s t : EventLoopThread eventfd Task)
      → Move eventfd Task s t
      → s.owner ≡ joining
      → n ≤ s.system.quits
      → (s.child ≡ entering) ⊎ ((s.child ≡ inside) × Loops s.system)
      → Lost n t
  unfolding publish_loop clear_loop begin_loop
  Waiting-Lost n s t (starts o e) w k v = absurd (cc (o, w))
  Waiting-Lost n s t (finds o e q) w k v = absurd (cc (o, w))
  Waiting-Lost n s t (destroys o e) w k v = absurd (cc (o, w))
  Waiting-Lost n s t (joins o c e) w k v = absurd (elsewhere s v (inl c))
  Waiting-Lost n s t (publishes c e) w k v = absurd (elsewhere s v (inr (inl c)))
  Waiting-Lost n s t (clears c e) w k v = absurd (elsewhere s v (inr (inr c)))
  Waiting-Lost n s t (enters l c e q) w k v =
      rw q (inl (w, k, inr (refl, record { running = ground (arith, e); within = λ p. cc })))
  Waiting-Lost n s t (loops u c o p q) w k v = elim v [
    | inl before ↦ absurd (cc (before, c))
    | inr (i, l) ↦
        rw q (inl (w, omega (arith, Own-quits s.system u o, k), inr (c, Own-Loops s.system u o l)))
  ]
  Waiting-Lost n s t (leaves u c o p q) w k v = elim v [
    | inl before ↦ absurd (cc (before, c))
    | inr (i, l) ↦ absurd ((Own-Loops s.system u o l).within p)
  ]
  Waiting-Lost n s t (others u e q) w k v = elim (Env-Loops s.system u e) [
    | inr more ↦ rw q (inr (omega (arith, more, k)))
    | inl (same, keeps) ↦ rw q (
        inl (
          w,
          omega (arith, same, k),
          elim v [ inl before ↦ inl before | inr (i, l) ↦ inr (i, keeps l) ],
        ))
  ]

  Moves-Lost :
      (n : ℕ) (s t : EventLoopThread eventfd Task) → Moves eventfd Task s t → Lost n s → Lost n t
  Moves-Lost n s t stay v = v
  Moves-Lost n s t (move {t = r} one rest) v = Moves-Lost n r t rest (elim v [
    | inl (w, k, unaware) ↦ Waiting-Lost n s r one w k unaware
    | inr more ↦ inr (omega (arith, more, Move-quits s r one))
  ])

  -- The destructor that calls `quit` after `startLoop` returned and before the thread is in `loop()`,
  -- which can happen, wakeup included, waits in the join for ever, unless `quit` is called again, by
  -- another thread or by what runs in the loop. Tasks that are queued do not end the wait.
  pub destroy_hangs :
      (thread : Thread)
      → thread.started ≡ false
      → thread.joined ≡ false
      → ((t : EventLoopThread eventfd Task) × Moves eventfd Task (create eventfd Task thread) t
          × (t.owner ≡ joining)
          × (t.child ≡ entering))
        × ((t u : EventLoopThread eventfd Task)
            → t.owner ≡ joining
            → t.child ≡ entering
            → Moves eventfd Task t u
            → u.owner ≡ joined
            → t.system.quits < u.system.quits)
  unfolding create Threads.start EventLoop.create start_loop begin_start publish_loop destroy
      set_quit wakeup join
  destroy_hangs thread idle unjoined =
      let s = create eventfd Task thread in
      let s₁ : EventLoopThread eventfd Task = record s {
        thread = record thread { started = true };
        owner = finding;
        child = constructing;
      } in
      let s₂ : EventLoopThread eventfd Task = publish_loop eventfd Task s₁ in
      let s₃ : EventLoopThread eventfd Task = record s₂ { owner = using } in
      let quitted = record s.system.loop { quitting = true } in
      let s₄ : EventLoopThread eventfd Task = record s₃ {
        exiting = true;
        system = record s.system { loop = quitted; waking = 1 };
        thread = record thread { started = true; joined = true };
        owner = joining;
      } in
      let woken : System eventfd Task = record s₄.system {
        loop = wakeup eventfd Task quitted;
        waking = 0;
      } in
      let t : EventLoopThread eventfd Task = record s₄ { system = woken } in
      let m₁ : Move eventfd Task s s₁ = starts refl (ground (arith, idle)) in
      let m₂ : Move eventfd Task s₁ s₂ = publishes refl refl in
      let m₃ : Move eventfd Task s₂ s₃ = finds refl refl refl in
      let m₄ : Move eventfd Task s₃ s₄ = destroys refl (ground (arith, unjoined)) in
      let m₅ : Move eventfd Task s₄ t = others woken (wakes_up 0 refl refl) refl in
      (
        (t, move m₁ (move m₂ (move m₃ (move m₄ (move m₅ stay)))), refl, refl),
        λ t' u w c rest over.
            elim (Moves-Lost t'.system.quits t' u rest (inl (w, omega arith, inl c))) [
              | inl (waits, _, _) ↦ absurd (cc (waits, over))
              | inr more ↦ more
            ],
      )
