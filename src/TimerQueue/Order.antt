-- ===== src/TimerQueue/Order.antt =====
-- The timers stay in order, and the alarm is not later than the first of them (TimerQueue.cpp).
use cc_server.Prelude.{
  ℕ, ◌+◌, ◌≤◌, ◌<◌, ◌≡◌, ◌≢◌, refl, ap, inl, inr, true, List, [], ◌∷◌, ◌++◌, Option, some, arith,
  Bool-cases, if◌then◌else◌,
}
use cc_server.Prelude.Outcome.{ok}
use cc_server.TimerQueue.{
  Entry, before, insert, split_at, TimerQueue, is_first, add_timer, get_expired,
}

abbrev pub AllAfter : Entry → List Entry → Type 0
AllAfter e [] = Unit {0}
AllAfter e (x ∷ xs) = (before e x ≡ true) × AllAfter e xs

-- In the order of the set, and no entry twice.
abbrev pub Sorted : List Entry → Type 0
Sorted [] = Unit {0}
Sorted (x ∷ xs) = AllAfter x xs × Sorted xs

before_trans : (x y z : Entry) → before x y ≡ true → before y z ≡ true → before x z ≡ true
before_trans x y z a b = ground arith

before-AllAfter : (x y : Entry) (l : List Entry) → before x y ≡ true → AllAfter y l → AllAfter x l
before-AllAfter x y [] h a = tt
before-AllAfter x y (z ∷ l) h (b, a) = (before_trans x y z h b, before-AllAfter x y l h a)

-- Every entry is due at a time up to `now`, or after it.
abbrev pub AllDue : ℕ → List Entry → Type 0
AllDue now [] = Unit {0}
AllDue now (x ∷ xs) = (x.0 ≤ now) × AllDue now xs

abbrev pub NoneDue : ℕ → List Entry → Type 0
NoneDue now [] = Unit {0}
NoneDue now (x ∷ xs) = (now < x.0) × NoneDue now xs

after-NoneDue : (now : ℕ) (x : Entry) (l : List Entry) → now < x.0 → AllAfter x l → NoneDue now l
after-NoneDue now x [] h a = tt
after-NoneDue now x (y ∷ l) h (b, a) = (ground arith, after-NoneDue now x l h a)

split_at_lem :
    (now : ℕ) (l : List Entry)
    → Sorted l
    → AllDue now (split_at (now + 1, 0) l).0
      × NoneDue now (split_at (now + 1, 0) l).1
      × ((split_at (now + 1, 0) l).0 ++ (split_at (now + 1, 0) l).1 ≡ l)
      × Sorted (split_at (now + 1, 0) l).1
unfolding split_at
split_at_lem now [] s = (tt, tt, refl, tt)
split_at_lem now (x ∷ l) (a, s) = elim (Bool-cases (before x (now + 1, 0))) [
  | inl due ↦
      let (d, n, joined, sorted) = split_at_lem now l s in
      rw due ((ground arith, d), n, ap (λ r. x ∷ r) joined, sorted)
  | inr late ↦
      let h : now < x.0 = ground arith in rw late (tt, (h, after-NoneDue now x l h a), refl, (a, s))
]

insert-AllAfter :
    (x e : Entry) (l : List Entry) → before x e ≡ true → AllAfter x l → AllAfter x (insert e l).0
unfolding insert
insert-AllAfter x e [] h a = (h, tt)
insert-AllAfter x e (y ∷ l) h (b, a) = elim (Bool-cases (before e y)) [
  | inl first ↦ rw first (h, (b, a))
  | inr later ↦ elim (Bool-cases (before y e)) [
    | inl goes_on ↦ rw (later, goes_on) (b, insert-AllAfter x e l h a)
    | inr same ↦ rw (later, same) (b, a)
  ]
]

pub insert-Sorted : (e : Entry) (l : List Entry) → Sorted l → Sorted (insert e l).0
unfolding insert
insert-Sorted e [] s = (tt, tt)
insert-Sorted e (x ∷ l) (a, s) = elim (Bool-cases (before e x)) [
  | inl first ↦ rw first ((first, before-AllAfter e x l first a), (a, s))
  | inr later ↦ elim (Bool-cases (before x e)) [
    | inl goes_on ↦ rw (later, goes_on) (insert-AllAfter x e l goes_on a, insert-Sorted e l s)
    | inr same ↦ rw (later, same) (a, s)
  ]
]

-- No entry is for the pointer.
abbrev pub IsUnused : ℕ → List Entry → Type 0
IsUnused pointer [] = Unit {0}
IsUnused pointer (x ∷ xs) = (x.1 ≢ pointer) × IsUnused pointer xs

pub insert_new : (e : Entry) (l : List Entry) → IsUnused e.1 l → (insert e l).1 ≡ true
unfolding insert
insert_new e [] u = refl
insert_new e (x ∷ l) (ne, u) = ground (arith, ne, insert_new e l u)

-- The timerfd expires not later than the first timer is due.
abbrev pub IsAlarmed : List Entry → Option ℕ → Type 0
IsAlarmed [] alarm = Unit {0}
IsAlarmed (x ∷ xs) alarm = (t : ℕ) × (alarm ≡ some t) × (t ≤ x.0)

pub insert-IsAlarmed :
    (e : Entry) (l : List Entry) (alarm : Option ℕ)
    → IsAlarmed l alarm
    → IsAlarmed (insert e l).0 (if is_first e (insert e l).0 then some e.0 else alarm)
unfolding insert
insert-IsAlarmed e [] alarm s = (e.0, ground arith, omega arith)
insert-IsAlarmed e (x ∷ l) alarm (t, h, le) = elim (Bool-cases (before e x)) [
  | inl first ↦ rw first (e.0, ground arith, omega arith)
  | inr later ↦ elim (Bool-cases (before x e)) [
    | inl goes_on ↦ rw (later, goes_on) (t, ground (arith, h), le)
    | inr same ↦ rw (later, same) (e.0, ground arith, ground arith)
  ]
]

-- `addTimer` of a new timer passes its assertion; the timers stay in order, and the timerfd expires
-- not later than the first of them is due, if it did before.
pub add_timer_lem :
    (pointer deadline : ℕ) (q : TimerQueue)
    → Sorted q.timers
    → IsAlarmed q.timers q.alarm
    → IsUnused pointer q.timers
    → (q' : TimerQueue) × (add_timer pointer deadline q ≡ ok q')
      × Sorted q'.timers
      × IsAlarmed q'.timers q'.alarm
unfolding add_timer
add_timer_lem pointer deadline q s a u =
    let e : Entry = (deadline, pointer) in
    (
      record q {
        timers = (insert e q.timers).0;
        alarm = (if is_first e (insert e q.timers).0 then some deadline else q.alarm);
      },
      ground (arith, insert_new e q.timers u),
      insert-Sorted e q.timers s,
      insert-IsAlarmed e q.timers q.alarm a,
    )

-- `getExpired` takes the timers that are due, in order, and leaves those that are not, in order.
pub get_expired_lem :
    (now : ℕ) (q : TimerQueue)
    → Sorted q.timers
    → AllDue now (get_expired now q).0
      × NoneDue now (get_expired now q).1.timers
      × ((get_expired now q).0 ++ (get_expired now q).1.timers ≡ q.timers)
      × Sorted (get_expired now q).1.timers
unfolding get_expired
get_expired_lem now q s = split_at_lem now q.timers s
