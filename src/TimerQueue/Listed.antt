-- ===== src/TimerQueue/Listed.antt =====
-- Which timers a list of entries names, and what insertion and erasure do to that.
use cc_server.Prelude.{
  ℕ, ◌≡◌, refl, inl, inr, Bool, true, false, not, ◌&&◌, ◌||◌, List, [], ◌∷◌, ◌++◌, Option, some,
  arith, Bool-cases, ◌==◌,
}
use cc_server.Prelude.Map.{update}
use cc_server.TimerQueue.{Entry, Timer, before, insert, erase}
use cc_server.TimerQueue.Order.{AllAfter, Sorted}

abbrev pub listed : ℕ → List Entry → Bool
listed p [] = false
listed p (x ∷ xs) = x.1 == p || listed p xs

-- The entry is for a timer that was not deleted, and has its time.
abbrev pub IsLive : (ℕ → Option Timer) → Entry → Type 0
IsLive heap e = (t : Timer) × (heap e.1 ≡ some t) × (t.deadline ≡ e.0) × (t.is_canceled ≡ false)

abbrev pub AllLive : (ℕ → Option Timer) → List Entry → Type 0
AllLive heap [] = Unit {0}
AllLive heap (x ∷ xs) = IsLive heap x × AllLive heap xs

-- No timer is named twice.
abbrev pub IsDistinct : List Entry → Type 0
IsDistinct [] = Unit {0}
IsDistinct (x ∷ xs) = (listed x.1 xs ≡ false) × IsDistinct xs

pub listed-append : (p : ℕ) (xs ys : List Entry) → listed p (xs ++ ys) ≡ listed p xs || listed p ys
listed-append p [] ys = refl
listed-append p (x ∷ xs) ys = ground (arith, listed-append p xs ys)

pub listed-insert :
    (p : ℕ) (e : Entry) (l : List Entry) → listed p (insert e l).0 ≡ e.1 == p || listed p l
unfolding insert
listed-insert p e [] = refl
listed-insert p e (x ∷ l) = ground (arith, listed-insert p e l)

pub update-AllLive :
    (heap : ℕ → Option Timer) (p : ℕ) (v : Option Timer) (l : List Entry)
    → listed p l ≡ false
    → AllLive heap l
    → AllLive (update heap p v) l
update-AllLive heap p v [] away a = tt
update-AllLive heap p v (x ∷ l) away ((t, there, at, active), a) = (
  (t, ground (arith, away, there), at, active),
  update-AllLive heap p v l (ground (arith, away)) a,
)

pub insert-AllLive :
    (heap : ℕ → Option Timer) (e : Entry) (l : List Entry)
    → IsLive heap e
    → AllLive heap l
    → AllLive heap (insert e l).0
unfolding insert
insert-AllLive heap e [] h a = (h, tt)
insert-AllLive heap e (x ∷ l) h (b, a) = elim (Bool-cases (before e x)) [
  | inl first ↦ rw first (h, (b, a))
  | inr later ↦ elim (Bool-cases (before x e)) [
    | inl goes_on ↦ rw (later, goes_on) (b, insert-AllLive heap e l h a)
    | inr same ↦ rw (later, same) (b, a)
  ]
]

-- A live entry before all others is the only one for its timer.
pub first_once :
    (heap : ℕ → Option Timer) (e : Entry) (l : List Entry)
    → IsLive heap e
    → AllAfter e l
    → AllLive heap l
    → listed e.1 l ≡ false
first_once heap e [] h a v = refl
first_once heap e (x ∷ l) (t, there, at, active) (b, a) ((s, there', at', active'), v) =
    let rest = first_once heap e l (t, there, at, active) a v in
    ground (arith, b, there, at, there', at', rest)

pub AllLive-split :
    (heap : ℕ → Option Timer) (xs ys : List Entry)
    → AllLive heap (xs ++ ys)
    → AllLive heap xs × AllLive heap ys
AllLive-split heap [] ys a = (tt, a)
AllLive-split heap (x ∷ xs) ys (h, a) = let (b, c) = AllLive-split heap xs ys a in ((h, b), c)

-- In a sorted list of live entries the first ones name no timer twice, and none of the others.
pub Sorted-split :
    (heap : ℕ → Option Timer) (xs ys : List Entry)
    → Sorted (xs ++ ys)
    → AllLive heap (xs ++ ys)
    → IsDistinct xs × ((p : ℕ) → listed p xs ≡ true → listed p ys ≡ false)
Sorted-split heap [] ys s v = (tt, λ p h. cc)
Sorted-split heap (x ∷ xs) ys (a, s) (h, v) =
    let alone = first_once heap x (xs ++ ys) h a v in
    let (d, apart) = Sorted-split heap xs ys s v in
    (
      (ground (arith, alone, listed-append x.1 xs ys), d),
      λ p is_in. elim (Bool-cases (listed p xs)) [
        | inl later ↦ apart p later
        | inr here ↦ ground (arith, is_in, here, alone, listed-append x.1 xs ys)
      ],
    )

erase-AllAfter : (x e : Entry) (l : List Entry) → AllAfter x l → AllAfter x (erase e l)
unfolding erase
erase-AllAfter x e [] a = tt
erase-AllAfter x e (y ∷ l) (b, a) = elim (Bool-cases (y.0 == e.0 && y.1 == e.1)) [
  | inl same ↦ rw same a
  | inr other ↦ rw other (b, erase-AllAfter x e l a)
]

pub erase-Sorted : (e : Entry) (l : List Entry) → Sorted l → Sorted (erase e l)
unfolding erase
erase-Sorted e [] s = tt
erase-Sorted e (y ∷ l) (a, s) = elim (Bool-cases (y.0 == e.0 && y.1 == e.1)) [
  | inl same ↦ rw same s
  | inr other ↦ rw other (erase-AllAfter y e l a, erase-Sorted e l s)
]

pub erase-AllLive :
    (heap : ℕ → Option Timer) (e : Entry) (l : List Entry)
    → AllLive heap l
    → AllLive heap (erase e l)
unfolding erase
erase-AllLive heap e [] v = tt
erase-AllLive heap e (y ∷ l) (h, v) = elim (Bool-cases (y.0 == e.0 && y.1 == e.1)) [
  | inl same ↦ rw same v
  | inr other ↦ rw other (h, erase-AllLive heap e l v)
]

-- Erasing a timer's entry leaves the entries of the others.
pub listed-erase :
    (heap : ℕ → Option Timer) (p : ℕ) (e : Entry) (l : List Entry)
    → Sorted l
    → AllLive heap l
    → IsLive heap e
    → listed p (erase e l) ≡ listed p l && not (e.1 == p)
unfolding erase
listed-erase heap p e [] s v h = refl
listed-erase heap p e (y ∷ l) (a, s) ((t, there, at, active), v) (u, there', at', active') =
    let alone = first_once heap y l (t, there, at, active) a v in
    let rest = listed-erase heap p e l s v (u, there', at', active') in
    elim (Bool-cases (y.0 == e.0 && y.1 == e.1)) [
      | inl same ↦ rw same (ground (arith, same, alone))
      | inr other ↦ rw other (ground (arith, other, rest, there, at, there', at'))
    ]
