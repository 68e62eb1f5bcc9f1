-- ===== src/Tests/Looping.antt =====
-- The event loop at concrete inputs, with numbers for tasks.
use cc_server.Prelude.{ℕ, ◌≡◌, ◌≢◌, refl, [], ◌∷◌, true, false}
use cc_server.Prelude.Outcome.{ok, ◌>>=◌}
use cc_server.EventLoop.{Loop, create, queue_in_loop, quit, begin_loop, push_task, needs_wakeup}
use cc_server.EventLoop.Threads.{
  System, start, polling, Reach, here, own, env, begins, goes_on, other_queues, OwnSteps,
}
use cc_server.EventLoop.Wakeup.{IsAwake, Reach-IsAwake}
use cc_server.EventLoop.Progress.{Woken, pending_tasks_run, early_calls_lost}
use cc_server.Tests.Kernel.{counter}

abbrev new_loop : Loop counter ℕ
new_loop = record {
  looping = false;
  quitting = false;
  doing_pending_tasks = false;
  pending_tasks = [];
  wakeup_fd = 0;
}

-- The loop waits, and another thread has queued task 7 and not yet called wakeup.
abbrev asleep : System counter ℕ
asleep = record {
  loop = record new_loop { looping = true };
  phase = polling;
  queued = [];
  done = [];
  waking = 0;
  quits = 0;
}

asleep-Reach : Reach counter ℕ asleep
unfolding start create begin_loop
asleep-Reach =
    own (own here (begins (record new_loop { looping = true }) refl refl refl))
      (goes_on refl refl refl)

abbrev told : System counter ℕ
told = record {
  loop = record new_loop { looping = true; pending_tasks = 7 ∷ [] };
  phase = polling;
  queued = 7 ∷ [];
  done = [];
  waking = 1;
  quits = 0;
}

told-Reach : Reach counter ℕ told
unfolding push_task needs_wakeup
told-Reach = env asleep-Reach (other_queues 7 refl)

Reach-IsAwake_example : IsAwake counter ℕ told
Reach-IsAwake_example = Reach-IsAwake counter ℕ told-Reach

pending_tasks_run_example :
    (u t : System counter ℕ) × Woken counter ℕ told u
    × OwnSteps counter ℕ u t
    × (t.done ≡ 7 ∷ [])
    × (t.loop.pending_tasks ≡ [])
pending_tasks_run_example = pending_tasks_run counter ℕ told told-Reach refl (λ e. cc)

early_calls_lost_example :
    (l' : Loop counter ℕ) × ((quit counter ℕ true (queue_in_loop counter ℕ true 7 new_loop)
        >>= begin_loop counter ℕ)
      ≡ ok l')
    × (l'.pending_tasks ≢ [])
    × (counter.readable l'.wakeup_fd ≡ false)
    × (l'.quitting ≡ false)
early_calls_lost_example = early_calls_lost counter ℕ new_loop 7 refl refl refl refl
