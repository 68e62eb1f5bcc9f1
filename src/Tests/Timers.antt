-- ===== src/Tests/Timers.antt =====
-- A queue of two timers, of which the second is repeated, and the calls of a connection's user.
use cc_server.Prelude.{ℕ, ◌≡◌, refl, List, [], ◌∷◌, ◌==◌, if◌then◌else◌, none, some, arith, Option}
use cc_server.Prelude.Outcome.{Outcome, ok}
use cc_server.TimerQueue.{TimerQueue, Timer, Entry, create, schedule}
use cc_server.TimerQueue.Order.{IsAlarmed}
use cc_server.TimerQueue.Life.{Life, schedule-Life}
use cc_server.TimerQueue.Rounds.{Keeps}
use cc_server.EventLoop.Timers.{fires, operate, operate-Life}

abbrev memory : ℕ → Option Timer
memory p = if p == 100 then some (create 5 0) else if p == 50 then some (create 9 4) else none

abbrev waiting : TimerQueue
waiting = record { timers = (5, 100) ∷ (9, 50) ∷ []; heap = memory; alarm = some 5 }

waiting-Life : Life waiting []
unfolding create
waiting-Life = record {
  sorted = ((refl, tt), (tt, tt));
  live = ((create 5 0, refl, refl, refl), ((create 9 4, refl, refl, refl), tt));
  due_live = tt;
  once = tt;
  apart = λ p h. cc;
  owned = λ p t h. ground (arith, h);
}

-- A callback that adds the timer 7, unless there is one.
abbrev unless_there : Option Timer → TimerQueue → Outcome TimerQueue
unless_there none q = schedule 7 20 0 q
unless_there (some t) q = ok q

abbrev add_seven : ℕ → TimerQueue → Outcome TimerQueue
add_seven p q = unless_there (q.heap 7) q

unless_there_lem :
    (m : Option Timer) (q : TimerQueue) (due : List Entry)
    → q.heap 7 ≡ m
    → Life q due
    → (q' : TimerQueue) × (unless_there m q ≡ ok q') × Life q' due
unless_there_lem none q due free v =
    let (q', e, w, b) = schedule-Life 7 20 0 q due v free in (q', e, w)
unless_there_lem (some t) q due there v = (q, refl, v)

add_seven-Keeps : Keeps add_seven
add_seven-Keeps q e due v = unless_there_lem (q.heap 7) q (e ∷ due) refl v

operate-Life_example :
    (q : TimerQueue) × (operate add_seven (fires 9) waiting ≡ ok q)
    × Life q []
    × IsAlarmed q.timers q.alarm
operate-Life_example =
    operate-Life add_seven (fires 9) waiting add_seven-Keeps waiting-Life (5, refl, omega arith) tt
