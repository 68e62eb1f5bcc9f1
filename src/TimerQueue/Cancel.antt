-- ===== src/TimerQueue/Cancel.antt =====
-- A timer that is canceled by its own callback (TimerQueue.cpp: cancelTimer, handleRead).
use cc_server.Prelude.{ℕ, ◌≤◌, ◌≡◌, false, some, arith}
use cc_server.Prelude.Outcome.{Outcome, undefined}
use cc_server.TimerQueue.{Timer, TimerQueue, cancel_timer, run_timer}

-- When the callback of a timer that is due does what `cancelTimer` does for the timer itself,
-- `handleRead` goes on to use the timer after it was deleted.
pub self_cancel_undefined :
    (run : ℕ → TimerQueue → Outcome TimerQueue) (now pointer : ℕ) (q : TimerQueue) (t : Timer)
    → q.heap pointer ≡ some t
    → t.deadline ≤ now
    → t.is_canceled ≡ false
    → run pointer q ≡ cancel_timer pointer q
    → run_timer run now pointer q ≡ undefined
unfolding run_timer cancel_timer
self_cancel_undefined run now pointer q t there due active cancels =
    ground (arith, there, due, active, cancels)
