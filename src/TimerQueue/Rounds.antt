-- ===== src/TimerQueue/Rounds.antt =====
-- The rounds of `handleRead`, between the calls that add and cancel timers (TimerQueue.cpp).
use mathlib.Core.Path.{subst}
use cc_server.Prelude.{ℕ, ◌≤◌, ◌≡◌, ap, sym, refl, List, [], ◌∷◌, Option, arith}
use cc_server.Prelude.Outcome.{Outcome, ok}
use cc_server.TimerQueue.{
  Entry, TimerQueue, expired, run_timer, run_timers, next_alarm, get_expired, handle_read,
}
use cc_server.TimerQueue.Order.{Sorted, IsAlarmed, AllDue, get_expired_lem}
use cc_server.TimerQueue.Listed.{listed, AllLive, listed-append, AllLive-split, Sorted-split}
use cc_server.TimerQueue.Life.{Life, settle_lem}

-- The timers taken out of the set wait for their callbacks.
get_expired-Life :
    (now : ℕ) (q : TimerQueue) → Life q [] → Life (get_expired now q).1 (get_expired now q).0
unfolding get_expired
get_expired-Life now q v =
    let (d, n, joined, s) = get_expired_lem now q v.sorted in
    let due = (get_expired now q).0 in
    let left = (get_expired now q).1.timers in
    let live = subst (AllLive q.heap) (sym joined) v.live in
    let (one, apart) = Sorted-split q.heap due left (subst Sorted (sym joined) v.sorted) live in
    let (due_live, left_live) = AllLive-split q.heap due left live in
    record {
      sorted = s;
      live = left_live;
      due_live = due_live;
      once = one;
      apart = apart;
      owned =
          λ p t h. ground (arith, v.owned p t h, listed-append p due left, ap (listed p) joined);
    }

-- The callback of a timer keeps the queue as it should be, and leaves the timers that are due, the
-- one it is called for included.
abbrev pub Keeps : (ℕ → TimerQueue → Outcome TimerQueue) → Type 0
Keeps run =
    (q : TimerQueue) (e : Entry) (due : List Entry)
    → Life q (e ∷ due)
    → (q' : TimerQueue) × (run e.1 q ≡ ok q') × Life q' (e ∷ due)

module _ (run : ℕ → TimerQueue → Outcome TimerQueue) (keeps : Keeps run) where
  run_timer_lem :
      (now : ℕ) (q : TimerQueue) (e : Entry) (due : List Entry)
      → Life q (e ∷ due)
      → e.0 ≤ now
      → (q' : TimerQueue) × (run_timer run now e.1 q ≡ ok q') × Life q' due
  unfolding run_timer expired
  run_timer_lem now q e due v late =
      let (t, there, at, active) = v.due_live.0 in
      let (q₁, ran, v₁) = keeps q e due v in
      let (q₂, settled, v₂) = settle_lem q₁ e due v₁ in
      (q₂, ground (arith, there, at, active, late, ran, settled), v₂)

  run_timers_lem :
      (now : ℕ) (due : List Entry) (q : TimerQueue)
      → Life q due
      → AllDue now due
      → (q' : TimerQueue) × (run_timers run now due q ≡ ok q') × Life q' []
  unfolding run_timers
  run_timers_lem now [] q v d = (q, refl, v)
  run_timers_lem now (e ∷ due) q v (late, d) =
      let (q₁, one, v₁) = run_timer_lem now q e due v late in
      let (q₂, all, v₂) = run_timers_lem now due q₁ v₁ d in (q₂, ground (arith, one, all), v₂)

  next_alarm-IsAlarmed : (l : List Entry) (alarm : Option ℕ) → IsAlarmed l (next_alarm run l alarm)
  next_alarm-IsAlarmed [] alarm = tt
  next_alarm-IsAlarmed (x ∷ l) alarm = (x.0, refl, omega arith)

  pub handle_read-Life :
      (now : ℕ) (q : TimerQueue)
      → Life q []
      → (q' : TimerQueue) × (handle_read run now q ≡ ok q')
        × Life q' []
        × IsAlarmed q'.timers q'.alarm
  unfolding handle_read
  handle_read-Life now q v =
      let (due, left) = get_expired now q in
      let (d, n, joined, s) = get_expired_lem now q v.sorted in
      let (q₁, ran, v₁) = run_timers_lem now due left (get_expired-Life now q v) d in
      (
        record q₁ { alarm = next_alarm run q₁.timers q₁.alarm },
        ground (arith, ran),
        record {
          sorted = v₁.sorted;
          live = v₁.live;
          due_live = tt;
          once = tt;
          apart = v₁.apart;
          owned = v₁.owned;
        },
        next_alarm-IsAlarmed q₁.timers q₁.alarm,
      )
