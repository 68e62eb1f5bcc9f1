-- ===== src/CircularBuffer/Traverse.antt =====
-- A traversal by iterators, from begin() to end() (base/CircularBuffer.h).
use native.Mathlib.Nat.{mod-eq_of_lt, mod-lt}
use cc_server.Prelude.{
  ℕ, zero, suc, ◌+◌, ◌-◌, ◌%◌, ◌^◌, ◌<◌, ◌≡◌, refl, ap, sym, ◌∙◌, List, [], ◌∷◌, Option, some, true,
  false, none, arith, length, take, map, ◌==◌,
}
use cc_server.Prelude.Outcome.{Outcome, ok, ◌>>=◌}
use cc_server.CircularBuffer.{CircularBuffer, cell, read, next_index, increment, begin, end}
use cc_server.CircularBuffer.Push.{tabulate, tabulate-same, next_index-spot}
use cc_server.CircularBuffer.Refine.{Holds, Holds-size, Holds-tail}
use cc_server.CircularBuffer.Clear.{spot, spot-next, spot-zero, first_differs}

module _ {ℓ} {A : Type ℓ} where
  abbrev behind : A → Option (List A) → Option (List A)
  behind a none = none
  behind a (some xs) = some (a ∷ xs)

  -- The values that a loop from one iterator to another reads, if it takes fewer than `steps` steps.
  unfoldable pub traverse : ℕ → ℕ → List (Option A) → ℕ → ℕ → Outcome (Option (List A))
  traverse capacity zero cells it stop = ok none
  traverse capacity (suc steps) cells it stop = elim (it == stop) [
    | true ↦ ok (some [])
    | false ↦ (do
      a ← read cells it
      rest ← traverse capacity steps cells (increment capacity it) stop
      ok (behind a rest))
  ]

  tabulate-take :
      (n : ℕ) (f : ℕ → Option A) (xs : List A)
      → tabulate (suc n) f ≡ map some xs
      → tabulate n f ≡ map some (take n xs)
  tabulate-take zero f xs e = refl
  tabulate-take (suc n) f [] e = cc
  tabulate-take (suc n) f (x ∷ xs) e = let rest = tabulate-take n (λ i. f (suc i)) xs cc in cc

  traverse_lem :
      (capacity n steps h : ℕ) (cells : List (Option A)) (xs : List A)
      → capacity < 2 ^ 31
      → h < capacity
      → n < capacity
      → n < steps
      → tabulate n (λ i. cell cells (spot capacity h i)) ≡ map some xs
      → traverse capacity steps cells h (spot capacity h n) ≡ ok (some xs)
  unfolding traverse increment next_index
  traverse_lem capacity n zero h cells xs small lt few enough e = absurd (omega arith)
  traverse_lem capacity zero (suc steps) h cells [] small lt few enough e =
      ground (arith, spot-zero capacity h lt)
  traverse_lem capacity zero (suc steps) h cells (x ∷ xs) small lt few enough e = cc
  traverse_lem capacity (suc n) (suc steps) h cells [] small lt few enough e = cc
  traverse_lem capacity (suc n) (suc steps) h cells (x ∷ xs) small lt few enough e =
      let next : increment capacity h ≡ (h + 1) % capacity =
        ap (next_index capacity) (sym (mod-eq_of_lt lt))
        ∙ next_index-spot capacity h (omega arith) small in
      let here : cell cells h ≡ some x = ap (cell cells) (sym (spot-zero capacity h lt)) ∙ cc in
      let rest =
        traverse_lem capacity n steps ((h + 1) % capacity) cells xs small
          (mod-lt (h + 1) {m = capacity} (omega arith)) (omega arith) (omega arith)
          (tabulate-same n _ (λ i. cell cells (spot capacity h (suc i)))
              (λ i _. ap (cell cells) (spot-next capacity h i))
            ∙ cc) in
      ground (arith, first_differs capacity h n lt few, here, next, spot-next capacity h n, rest)

module _ {ℓ} {A : Type ℓ} (capacity : ℕ) where
  -- A loop from begin() to end() of a buffer that holds values ends after as many steps, reads only
  -- cells that hold objects, and misses the newest value.
  pub traverse_misses_last :
      (c : CircularBuffer A) (xs : List A)
      → Holds capacity c xs
      → traverse capacity (length xs) c.cells (begin capacity c) (end capacity c)
        ≡ ok (some (take (length xs - 1) xs))
  unfolding begin end
  traverse_misses_last c xs h =
      let size = Holds-size capacity h in
      let n = c.size - 1 in
      let window =
        tabulate-take n (λ i. cell c.cells (spot capacity c.head i)) xs
          (ap (λ k. tabulate k (λ i. cell c.cells (spot capacity c.head i))) {x = suc n}
              {y = c.size} (omega (arith, size, h.some_value))
            ∙ h.contents) in
      ap (traverse capacity (length xs) c.cells c.head) (Holds-tail capacity h)
      ∙ traverse_lem capacity n (length xs) c.head c.cells (take n xs) h.valid.small h.valid.head
          (omega (arith, size, h.valid.size, h.some_value)) (omega (arith, size, h.some_value))
          window
      ∙ ap (λ k. ok (some (take (k - 1) xs))) size
