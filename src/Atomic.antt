-- ===== src/Atomic.antt =====
-- base/Atomic.h: an integer of `w` bits that threads change by the compiler's atomic builtins, each of
-- which is one step. A signed integer is its bit pattern, a number below `2 ^ w`.
use cc_server.Prelude.{
  ℕ, ◌+◌, ◌-◌, ◌%◌, ◌^◌, ◌≡◌, ap, ◌∙◌, Bool, not, ◌&&◌, List, [], ◌∷◌, leb, arith, if◌then◌else◌,
}
use cc_server.Prelude.Outcome.{Outcome, ok, undefined}
use native.Mathlib.Nat.{mod-add-mod}

module _ (w : ℕ) where
  abbrev pub is_negative : ℕ → Bool
  is_negative a = leb (2 ^ (w - 1)) a

  -- Whether the sum of two signed integers does not fit.
  abbrev pub overflows : ℕ → ℕ → Bool
  overflows a b =
      if is_negative a
      then is_negative b && not (is_negative ((a + b) % 2 ^ w))
      else not (is_negative b) && is_negative ((a + b) % 2 ^ w)

  -- What each call answers, and the value afterwards.
  unfoldable pub get_and_add : ℕ → ℕ → ℕ × ℕ
  get_and_add x value = (value, (value + x) % 2 ^ w)

  -- The addition to the answer is one of signed integers, which must fit.
  unfoldable pub add_and_get : ℕ → ℕ → Outcome (ℕ × ℕ)
  unfolding get_and_add
  add_and_get x value =
      let (old, value') = get_and_add x value in
      if overflows old x then undefined else ok ((old + x) % 2 ^ w, value')

  unfoldable pub increment_and_get : ℕ → Outcome (ℕ × ℕ)
  unfolding add_and_get
  increment_and_get value = add_and_get 1 value

  -- `-1` is the pattern of ones.
  unfoldable pub decrement_and_get : ℕ → Outcome (ℕ × ℕ)
  unfolding add_and_get
  decrement_and_get value = add_and_get (2 ^ w - 1) value

  unfoldable pub get_and_set : ℕ → ℕ → ℕ × ℕ
  get_and_set new_value value = (value, new_value)

  -- Calls of getAndAdd by any threads, in the order of their steps: the answers, and the value at the
  -- end.
  abbrev adds : List ℕ → ℕ → List ℕ × ℕ
  adds [] value = ([], value)
  adds (x ∷ xs) value =
      let (old, value') = get_and_add x value in
      let (olds, last) = adds xs value' in (old ∷ olds, last)

  -- The values that additions one after the other find, without end.
  abbrev found : List ℕ → ℕ → List ℕ
  found [] total = []
  found (x ∷ xs) total = (total % 2 ^ w) ∷ found xs (total + x)

  abbrev sum : List ℕ → ℕ
  sum [] = 0
  sum (x ∷ xs) = x + sum xs

  -- In whatever order threads add, no addition is lost: each call answers the sum of those before it,
  -- and the value at the end is the sum of all, as far as `w` bits hold it.
  pub adds_lem :
      (xs : List ℕ) (total : ℕ)
      → adds xs (total % 2 ^ w) ≡ (found xs total, (total + sum xs) % 2 ^ w)
  unfolding get_and_add
  adds_lem [] total = ap (λ n. ([], n % 2 ^ w)) {x = total} {y = total + 0} (omega arith)
  adds_lem (x ∷ xs) total =
      let behind = ap (adds xs) (mod-add-mod total (2 ^ w) x) ∙ adds_lem xs (total + x) in
      rw behind (
        ap (λ n. (found (x ∷ xs) total, n % 2 ^ w)) {x = total + x + sum xs}
          {y = total + (x + sum xs)} (omega arith))
