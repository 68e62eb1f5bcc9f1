-- ===== src/CircularBuffer/Recent.antt =====
-- What a circular buffer is for: the last values of a sequence, and what a client can ask.
use cc_server.Prelude.{ℕ, ◌-◌, Bool, List, [], ◌∷◌, ◌++◌, ◌==◌, length, drop}
use cc_server.Prelude.Outcome.{Outcome, ok, undefined, ◌>>=◌}

pub data Call {ℓ} (A : Type ℓ) : Type ℓ where
  pushes : A → Call A
  asks_front asks_back asks_size asks_full asks_empty : Call A

pub data Answer {ℓ} (A : Type ℓ) : Type ℓ where
  done : Answer A
  value : A → Answer A
  count : ℕ → Answer A
  truth : Bool → Answer A

module _ {ℓ} {A : Type ℓ} where
  unfoldable pub first : List A → Outcome A
  first [] = undefined
  first (x ∷ xs) = ok x

  unfoldable pub last : List A → Outcome A
  last [] = undefined
  last (x ∷ []) = ok x
  last (x ∷ y ∷ xs) = last (y ∷ xs)

  module _ (capacity : ℕ) where
    unfoldable pub recent : List A → List A
    recent xs = drop (length xs - capacity) xs

    -- The answer, and the values held afterwards.
    unfoldable pub answer : Call A → List A → Outcome (Answer A × List A)
    answer (pushes v) xs = ok (done, recent (xs ++ (v ∷ [])))
    answer asks_front xs = do a ← first xs; ok (value a, xs)
    answer asks_back xs = do a ← last xs; ok (value a, xs)
    answer asks_size xs = ok (count (length xs), xs)
    answer asks_full xs = ok (truth (length xs == capacity), xs)
    answer asks_empty xs = ok (truth (length xs == 0), xs)

    unfoldable pub answers : List (Call A) → List A → Outcome (List (Answer A))
    answers [] xs = ok []
    answers (call ∷ calls) xs = do
      (a, xs') ← answer call xs
      rest ← answers calls xs'
      ok (a ∷ rest)
