-- ===== src/Tests/Setups.antt =====
-- An event loop that is set up and taken down, and a timerfd, at concrete inputs.
use cc_server.Prelude.{
  ℕ, [], ◌∷◌, ◌+◌, ◌*◌, ◌<◌, ◌≡◌, ◌≢◌, refl, Bool, Option, some, none, true, false, ◌==◌,
  if◌then◌else◌, ltb, arith,
}
use cc_server.Prelude.Outcome.{ok}
use cc_server.Prelude.Int.{ℤ, pos, negsuc}
use cc_server.Prelude.Map.{update}
use cc_server.Channel.{is_zero}
use cc_server.Epoll.{Poller}
use cc_server.Epoll.Sync.{InSync}
use cc_server.TimerQueue.{expired, create}
use cc_server.TimerQueue.Destroy.{no_timers, no_timers-Life}
use cc_server.TimerQueue.Duration.{TimerFd, Alarm, nano_den, timerfd_set, timerfd_set_lem}
use cc_server.EventLoop.Setup.{LoopObject, Destructed, IsSetUp, reading, destruct, destruct_lem}
use cc_server.Tests.Kernel.{list_kernel}
use cc_server.Tests.Connecting.{unused, channel_with}

-- The eventfd is 3 and the timerfd 4.
abbrev polled : Poller list_kernel
polled = record {
  kernel = update (update (λ fd. none) 4 (some reading)) 3 (some reading);
  channels = update (update unused 4 (channel_with reading true 4)) 3 (channel_with reading true 3);
  max_events = 128;
  errors = 0;
}

polled-InSync : InSync list_kernel polled
unfolding is_zero
polled-InSync = record {
  own_fd = λ j. ground arith;
  listed = λ j. ground arith;
  polled = λ j. ground arith;
  no_errors = refl;
}

abbrev set_up : LoopObject list_kernel
set_up = record {
  poller = polled;
  timers = no_timers;
  epoll_fd = 5;
  wakeup_fd = 3;
  timer_fd = 4;
  looping = false;
}

set_up-IsSetUp : IsSetUp list_kernel set_up
set_up-IsSetUp = record {
  in_sync = polled-InSync;
  timers = no_timers-Life;
  wakeup = refl;
  timer = refl;
  stopped = refl;
}

destruct_lem_example :
    (d : Destructed list_kernel) × (destruct list_kernel set_up ≡ ok d)
    × InSync list_kernel d.poller
    × (d.poller.kernel 3 ≡ none)
    × ((fd : ℕ) → 3 ≢ fd → d.poller.kernel fd ≡ polled.kernel fd)
    × (d.closed ≡ 3 ∷ 4 ∷ 5 ∷ [])
    × ((pointer : ℕ) → d.heap pointer ≡ none)
    × (d.thread_loop ≡ none)
destruct_lem_example = destruct_lem list_kernel set_up set_up-IsSetUp

-- A timerfd is the time at which it becomes readable.
abbrev arm : ℕ → ℤ → ℤ → Option ℕ → Option ℕ × Bool
arm now (pos sec) (pos nsec) s =
    if ltb nsec nano_den
    then (if sec + nsec == 0 then none else some (now + (sec * nano_den + nsec)), true)
    else (s, false)
arm now (pos sec) (negsuc nsec) s = (s, false)
arm now (negsuc sec) nsec s = (s, false)

arm_lem :
    (now sec nsec : ℕ) (s : Option ℕ)
    → nsec < nano_den
    → 0 < sec + nsec
    → arm now (pos sec) (pos nsec) s ≡ (some (now + (sec * nano_den + nsec)), true)
arm_lem now sec nsec s small some_time = ground arith

abbrev clock : TimerFd
clock = record {
  State = Option ℕ;
  expires = λ s. s;
  settime = λ now t s. arm now t.tv_sec t.tv_nsec s;
  settime_ok = λ now t s sec nsec a b small some_time.
      rw (a, b, arm_lem now sec nsec s small some_time) refl;
  settime-expires = λ now t s sec nsec a b small some_time.
      rw (a, b, arm_lem now sec nsec s small some_time) refl;
}

abbrev alarm : Alarm clock
alarm = record { state = none; errors = 0 }

-- A timer that was due long ago.
timerfd_set_lem_example :
    ((timerfd_set clock 2000 9000000 5 alarm).state ≡ some 1002000)
    × ((timerfd_set clock 2000 9000000 5 alarm).errors ≡ 0)
    × (expired (create 5 0) 10000000 ≡ true)
unfolding create
timerfd_set_lem_example =
    timerfd_set_lem clock 2000 9000000 10000000 5 alarm (create 5 0) refl (omega arith)
