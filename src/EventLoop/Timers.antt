-- ===== src/EventLoop/Timers.antt =====
-- EventLoop.cpp: the calls for timers, in the loop's thread. `pointer` is what `new Timer` answers.
use cc_server.Prelude.{ℕ, ◌+◌, ◌≡◌, none, true, []}
use cc_server.Prelude.Outcome.{Outcome, ok}
use cc_server.TimerQueue.{TimerQueue, schedule, cancel_timer, handle_read}
use cc_server.TimerQueue.Order.{IsAlarmed}
use cc_server.TimerQueue.Listed.{listed}
use cc_server.TimerQueue.Life.{Life, schedule-Life, cancel_timer-Life}
use cc_server.TimerQueue.Rounds.{Keeps, handle_read-Life}

unfoldable pub run_at : ℕ → ℕ → TimerQueue → Outcome TimerQueue
run_at pointer when q = schedule pointer when 0 q

unfoldable pub run_after : ℕ → ℕ → ℕ → TimerQueue → Outcome TimerQueue
unfolding run_at
run_after pointer now interval q = run_at pointer (now + interval) q

unfoldable pub run_every : ℕ → ℕ → ℕ → TimerQueue → Outcome TimerQueue
run_every pointer now interval q = schedule pointer (now + interval) interval q

unfoldable pub cancel : ℕ → TimerQueue → Outcome TimerQueue
cancel pointer q = cancel_timer pointer q

-- What the loop's thread does with its timers: the user's calls, and the read callback of the
-- timerfd's channel.
pub data Operation : Type 0 where
  at : ℕ → ℕ → Operation
  after : ℕ → ℕ → ℕ → Operation
  every : ℕ → ℕ → ℕ → Operation
  cancels : ℕ → Operation
  fires : ℕ → Operation

-- A new timer's address is free, and only a timer that waits in the set is canceled.
abbrev pub Allowed : Operation → TimerQueue → Type 0
Allowed (at pointer when) q = q.heap pointer ≡ none
Allowed (after pointer now interval) q = q.heap pointer ≡ none
Allowed (every pointer now interval) q = q.heap pointer ≡ none
Allowed (cancels pointer) q = listed pointer q.timers ≡ true
Allowed (fires now) q = Unit {0}

module _ (run : ℕ → TimerQueue → Outcome TimerQueue) where
  unfoldable pub operate : Operation → TimerQueue → Outcome TimerQueue
  unfolding run_at run_after run_every cancel
  operate (at pointer when) q = run_at pointer when q
  operate (after pointer now interval) q = run_after pointer now interval q
  operate (every pointer now interval) q = run_every pointer now interval q
  operate (cancels pointer) q = cancel pointer q
  operate (fires now) q = handle_read run now q

  schedule-Alarmed :
      (pointer deadline interval : ℕ) (q : TimerQueue)
      → Life q []
      → IsAlarmed q.timers q.alarm
      → q.heap pointer ≡ none
      → (q' : TimerQueue) × (schedule pointer deadline interval q ≡ ok q')
        × Life q' []
        × IsAlarmed q'.timers q'.alarm
  schedule-Alarmed pointer deadline interval q v a free =
      let (q', e, w, b) = schedule-Life pointer deadline interval q [] v free in (q', e, w, b a)

  -- `runAt`, `runAfter`, `runEvery`, `cancelTimer` and the rounds of the timer queue use no timer
  -- that was deleted and pass their assertions; afterwards the timers are in order, each timer that
  -- lives has one entry and each entry is for a timer that lives and has its time, and the time that
  -- the timerfd was last set to is not later than the first of them. Assumed: the queue was so
  -- before, a new timer's address is free, only a timer that waits in the set is canceled, and the
  -- callbacks keep the queue and the timers that are due.
  pub operate-Life :
      (operation : Operation) (q : TimerQueue)
      → Keeps run
      → Life q []
      → IsAlarmed q.timers q.alarm
      → Allowed operation q
      → (q' : TimerQueue) × (operate operation q ≡ ok q')
        × Life q' []
        × IsAlarmed q'.timers q'.alarm
  unfolding operate run_at run_after run_every cancel
  operate-Life (at pointer when) q keeps v a free = schedule-Alarmed pointer when 0 q v a free
  operate-Life (after pointer now interval) q keeps v a free =
      schedule-Alarmed pointer (now + interval) 0 q v a free
  operate-Life (every pointer now interval) q keeps v a free =
      schedule-Alarmed pointer (now + interval) interval q v a free
  operate-Life (cancels pointer) q keeps v a is_in =
      let (q', e, w, b) = cancel_timer-Life pointer q [] v is_in in (q', e, w, b a)
  operate-Life (fires now) q keeps v a free = handle_read-Life run keeps now q v
