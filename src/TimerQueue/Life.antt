-- ===== src/TimerQueue/Life.antt =====
-- A timer from `addTimer` to its deletion: the queue, the timers that are due and the heap
-- (TimerQueue.cpp).
use cc_server.Prelude.{
  ℕ, ◌+◌, ◌≡◌, refl, inl, inr, true, false, not, ◌&&◌, ◌||◌, List, [], ◌∷◌, Option, none, some,
  arith, Bool-cases, ◌==◌, if◌then◌else◌,
}
use cc_server.Prelude.Outcome.{ok}
use cc_server.Prelude.Map.{update}
use cc_server.TimerQueue.{
  Entry, Timer, TimerQueue, insert, erase, create, restart, cancel, add_timer, schedule,
  cancel_timer, settle, is_first,
}
use cc_server.TimerQueue.Order.{
  Sorted, IsAlarmed, IsUnused, insert-Sorted, insert_new, insert-IsAlarmed,
}
use cc_server.TimerQueue.Listed.{
  listed, IsLive, AllLive, IsDistinct, listed-insert, update-AllLive, insert-AllLive, erase-Sorted,
  erase-AllLive, listed-erase,
}

-- The queue while the timers of `due` wait for their callbacks: each entry is for a timer that
-- lives, each timer that lives has an entry, and no timer has two.
pub record Life (q : TimerQueue) (due : List Entry) : Type 0 where
  pub sorted : Sorted q.timers
  pub live : AllLive q.heap q.timers
  pub due_live : AllLive q.heap due
  pub once : IsDistinct due
  pub apart : (p : ℕ) → listed p due ≡ true → listed p q.timers ≡ false
  pub owned : (p : ℕ) (t : Timer) → q.heap p ≡ some t → listed p q.timers || listed p due ≡ true

-- A timer that waits for its callback is deleted.
deleted-Life :
    (q : TimerQueue) (e : Entry) (due : List Entry)
    → Life q (e ∷ due)
    → Life (record q { heap = update q.heap e.1 none }) due
deleted-Life q e due v =
    let gone = v.apart e.1 (ground arith) in
    record {
      sorted = v.sorted;
      live = update-AllLive q.heap e.1 none q.timers gone v.live;
      due_live = update-AllLive q.heap e.1 none due v.once.0 v.due_live.1;
      once = v.once.1;
      apart = λ p h. v.apart p (ground (arith, h));
      owned = λ p t h. ground (arith, h, v.owned p t);
    }

-- A timer that waits for its callback, put back with a new time.
restarted-Life :
    (q : TimerQueue) (e : Entry) (due : List Entry) (t : Timer)
    → Life q (e ∷ due)
    → t.is_canceled ≡ false
    → Life
        (record q {
          timers = (insert (t.deadline, e.1) q.timers).0;
          heap = update q.heap e.1 (some t);
        })
        due
restarted-Life q e due t v active =
    let gone = v.apart e.1 (ground arith) in
    let e' : Entry = (t.deadline, e.1) in
    let heap = update q.heap e.1 (some t) in
    record {
      sorted = insert-Sorted e' q.timers v.sorted;
      live =
          insert-AllLive heap e' q.timers (t, ground arith, refl, active)
            (update-AllLive q.heap e.1 (some t) q.timers gone v.live);
      due_live = update-AllLive q.heap e.1 (some t) due v.once.0 v.due_live.1;
      once = v.once.1;
      apart = λ p h. ground (arith, h, v.apart p, v.once.0, listed-insert p e' q.timers);
      owned = λ p s h. ground (arith, h, v.owned p s, listed-insert p e' q.timers);
    }

pub settle_lem :
    (q : TimerQueue) (e : Entry) (due : List Entry)
    → Life q (e ∷ due)
    → (q' : TimerQueue) × (settle e.1 q ≡ ok q') × Life q' due
unfolding settle restart
settle_lem q e due v =
    let (t, there, at, active) = v.due_live.0 in
    elim (Bool-cases t.repeats) [
      | inr one_shot ↦ (
        record q { heap = update q.heap e.1 none },
        ground (arith, there, one_shot),
        deleted-Life q e due v,
      )
      | inl again ↦
          let t' : Timer = record t { deadline = t.deadline + t.interval } in
          (
            record q {
              timers = (insert (t'.deadline, e.1) q.timers).0;
              heap = update q.heap e.1 (some t');
            },
            ground (arith, there, active, again),
            restarted-Life q e due t' v active,
          )
    ]

unlisted-IsUnused : (p : ℕ) (l : List Entry) → listed p l ≡ false → IsUnused p l
unlisted-IsUnused p [] h = tt
unlisted-IsUnused p (x ∷ l) h =
    (λ e. ground (arith, h, e), unlisted-IsUnused p l (ground (arith, h)))

free_unlisted :
    (heap : ℕ → Option Timer) (p : ℕ) (l : List Entry)
    → heap p ≡ none
    → AllLive heap l
    → listed p l ≡ false
free_unlisted heap p [] free v = refl
free_unlisted heap p (x ∷ l) free ((t, there, at, active), v) =
    ground (arith, there, free, free_unlisted heap p l free v)

listed-IsLive :
    (heap : ℕ → Option Timer) (p : ℕ) (l : List Entry)
    → listed p l ≡ true
    → AllLive heap l
    → (deadline : ℕ) × IsLive heap (deadline, p)
listed-IsLive heap p (x ∷ l) is_in ((t, there, at, active), v) = elim (Bool-cases (x.1 == p)) [
  | inl here ↦ (x.0, (t, ground (arith, there, here), at, active))
  | inr later ↦ listed-IsLive heap p l (ground (arith, is_in, later)) v
]
listed-IsLive heap p [] is_in v = cc

-- A timer at an address that is free can be added.
pub schedule-Life :
    (pointer deadline interval : ℕ) (q : TimerQueue) (due : List Entry)
    → Life q due
    → q.heap pointer ≡ none
    → (q' : TimerQueue) × (schedule pointer deadline interval q ≡ ok q')
      × Life q' due
      × (IsAlarmed q.timers q.alarm → IsAlarmed q'.timers q'.alarm)
unfolding schedule create add_timer
schedule-Life pointer deadline interval q due v free =
    let e : Entry = (deadline, pointer) in
    let t : Timer = create deadline interval in
    let heap = update q.heap pointer (some t) in
    let new = free_unlisted q.heap pointer q.timers free v.live in
    let not_due = free_unlisted q.heap pointer due free v.due_live in
    (
      record {
        timers = (insert e q.timers).0;
        heap = heap;
        alarm = (if is_first e (insert e q.timers).0 then some deadline else q.alarm);
      },
      ground (arith, insert_new e q.timers (unlisted-IsUnused pointer q.timers new)),
      record {
        sorted = insert-Sorted e q.timers v.sorted;
        live =
            insert-AllLive heap e q.timers (t, ground arith, refl, refl)
              (update-AllLive q.heap pointer (some t) q.timers new v.live);
        due_live = update-AllLive q.heap pointer (some t) due not_due v.due_live;
        once = v.once;
        apart = λ p h. ground (arith, h, v.apart p, not_due, listed-insert p e q.timers);
        owned = λ p s h. ground (arith, h, v.owned p s, listed-insert p e q.timers);
      },
      λ a. insert-IsAlarmed e q.timers q.alarm a,
    )

erase-IsAlarmed :
    (e : Entry) (l : List Entry) (alarm : Option ℕ)
    → Sorted l
    → IsAlarmed l alarm
    → IsAlarmed (erase e l) alarm
unfolding erase
erase-IsAlarmed e [] alarm s a = tt
erase-IsAlarmed e (x ∷ []) alarm s a = elim (Bool-cases (x.0 == e.0 && x.1 == e.1)) [
  | inl same ↦ rw same tt
  | inr other ↦ rw other a
]
erase-IsAlarmed e (x ∷ y ∷ l) alarm ((b, _), s) (t, h, le) =
    elim (Bool-cases (x.0 == e.0 && x.1 == e.1)) [
      | inl same ↦ rw same (t, h, ground (arith, b, le))
      | inr other ↦ rw other (t, h, le)
    ]

-- A timer that waits in the set can be canceled.
pub cancel_timer-Life :
    (pointer : ℕ) (q : TimerQueue) (due : List Entry)
    → Life q due
    → listed pointer q.timers ≡ true
    → (q' : TimerQueue) × (cancel_timer pointer q ≡ ok q')
      × Life q' due
      × (IsAlarmed q.timers q.alarm → IsAlarmed q'.timers q'.alarm)
unfolding cancel_timer cancel
cancel_timer-Life pointer q due v is_in =
    let (deadline, (t, there, at, active)) = listed-IsLive q.heap pointer q.timers is_in v.live in
    let e : Entry = (t.deadline, pointer) in
    let erased : (p : ℕ) → listed p (erase e q.timers) ≡ listed p q.timers && not (pointer == p) =
      λ p. listed-erase q.heap p e q.timers v.sorted v.live (t, there, refl, active) in
    let not_due : listed pointer due ≡ false = ground (arith, is_in, v.apart pointer) in
    (
      record q { timers = erase e q.timers; heap = update q.heap pointer none },
      ground (arith, there, active),
      record {
        sorted = erase-Sorted e q.timers v.sorted;
        live =
            update-AllLive q.heap pointer none (erase e q.timers) (ground (arith, erased pointer))
              (erase-AllLive q.heap e q.timers v.live);
        due_live = update-AllLive q.heap pointer none due not_due v.due_live;
        once = v.once;
        apart = λ p h. ground (arith, h, v.apart p, erased p);
        owned = λ p s h. ground (arith, h, v.owned p s, erased p);
      },
      λ a. erase-IsAlarmed e q.timers q.alarm v.sorted a,
    )
