-- ===== src/Prelude/Slices.antt =====
-- A range of a byte array: reading it, and overwriting it as `std::copy` or `memcpy` does.
use cc_server.Prelude.{
  ℕ, zero, suc, ◌+◌, ◌-◌, ◌≤◌, ◌≡◌, refl, ap, ◌∙◌, List, [], ◌∷◌, ◌++◌, arith, min, length, take,
  drop, length-append, length-take, length-drop, take-append_le, drop-append_le, take-append_left,
  drop-append_left, drop-drop, drop-take, take-take,
}

module _ {ℓ} {A : Type ℓ} where
  -- The `n` elements from index `i` on.
  abbrev pub slice : ℕ → ℕ → List A → List A
  slice i n xs = take n (drop i xs)

  -- The array after the elements from index `i` on were overwritten by `ys`.
  pub overwrite : ℕ → List A → List A → List A
  overwrite i ys xs = take i xs ++ (ys ++ drop (i + length ys) xs)

  pub length-slice : (i n : ℕ) (xs : List A) → i + n ≤ length xs → length (slice i n xs) ≡ n
  length-slice i n xs h = omega (arith, length-take n (drop i xs), length-drop i xs)

  pub length-overwrite :
      (i : ℕ) (ys xs : List A) → i + length ys ≤ length xs → length (overwrite i ys xs) ≡ length xs
  unfolding overwrite
  length-overwrite i ys xs h = omega (
    arith,
    length-append (take i xs) (ys ++ drop (i + length ys) xs),
    length-append ys (drop (i + length ys) xs),
    length-take i xs,
    length-drop (i + length ys) xs,
  )

  pub drop-append_ge :
      (n : ℕ) (xs ys : List A) → length xs ≤ n → drop n (xs ++ ys) ≡ drop (n - length xs) ys
  drop-append_ge n [] ys h = ap (λ k. drop k ys) {x = n} {y = n - 0} (omega arith)
  drop-append_ge zero (x ∷ xs) ys h = absurd (omega arith)
  drop-append_ge (suc n) (x ∷ xs) ys h =
      drop-append_ge n xs ys (omega arith)
      ∙ ap (λ k. drop k ys) {x = n - length xs} {y = suc n - suc (length xs)} (omega arith)

  pub slice-overwrite_before :
      (p n i : ℕ) (ys xs : List A)
      → p + n ≤ i
      → i ≤ length xs
      → slice p n (overwrite i ys xs) ≡ slice p n xs
  unfolding overwrite
  slice-overwrite_before p n i ys xs h k =
      ap (take n) (drop-append_le p (take i xs) rest (omega (arith, length-take i xs)))
      ∙ ap (λ l. take n (l ++ rest)) (drop-take p i xs)
      ∙ take-append_le n (take (i - p) (drop p xs)) rest
          (omega (arith, length-take (i - p) (drop p xs), length-drop p xs))
      ∙ take-take n (i - p) (drop p xs)
      ∙ ap (λ m. take m (drop p xs)) {x = min n (i - p)} {y = n} (omega arith)
    where
      rest : List A
      rest = ys ++ drop (i + length ys) xs

  pub slice-overwrite_self :
      (i : ℕ) (ys xs : List A) → i ≤ length xs → slice i (length ys) (overwrite i ys xs) ≡ ys
  unfolding overwrite
  slice-overwrite_self i ys xs h =
      ap (take (length ys)) (
        drop-append_left i (take i xs) (ys ++ drop (i + length ys) xs)
          (omega (arith, length-take i xs)))
      ∙ take-append_left (length ys) ys (drop (i + length ys) xs) refl

  pub slice-overwrite_after :
      (p n i : ℕ) (ys xs : List A)
      → i + length ys ≤ p
      → i ≤ length xs
      → slice p n (overwrite i ys xs) ≡ slice p n xs
  unfolding overwrite
  slice-overwrite_after p n i ys xs h k = ap (take n) (
      drop-append_ge p (take i xs) (ys ++ rest) (omega (arith, length-take i xs))
      ∙ drop-append_ge (p - length (take i xs)) ys rest (omega (arith, length-take i xs))
      ∙ drop-drop (p - length (take i xs) - length ys) (i + length ys) xs
      ∙ ap (λ m. drop m xs) {x = i + length ys + (p - length (take i xs) - length ys)} {y = p}
          (omega (arith, length-take i xs)))
    where
      rest : List A
      rest = drop (i + length ys) xs

  pub slice-append :
      (p n : ℕ) (xs ys : List A) → p + n ≤ length xs → slice p n (xs ++ ys) ≡ slice p n xs
  slice-append p n xs ys h =
      ap (take n) (drop-append_le p xs ys (omega arith))
      ∙ take-append_le n (drop p xs) ys (omega (arith, length-drop p xs))

  pub take-add : (m n : ℕ) (xs : List A) → take (m + n) xs ≡ take m xs ++ take n (drop m xs)
  take-add zero n xs = ap (λ k. take k xs) {x = 0 + n} {y = n} (omega arith)
  take-add (suc m) zero [] = ap (λ k. take k []) {x = suc m + 0} {y = suc m} (omega arith)
  take-add (suc m) (suc n) [] =
      ap (λ k. take k []) {x = suc m + suc n} {y = suc (m + suc n)} (omega arith)
  take-add (suc m) n (x ∷ xs) =
      ap (λ k. take k (x ∷ xs)) {x = suc m + n} {y = suc (m + n)} (omega arith)
      ∙ ap (λ k. x ∷ k) (take-add m n xs)

  -- Two neighbouring ranges make one.
  pub slice-add :
      (p m n : ℕ) (xs : List A) → slice p (m + n) xs ≡ slice p m xs ++ slice (p + m) n xs
  slice-add p m n xs =
      take-add m n (drop p xs) ∙ ap (λ l. take m (drop p xs) ++ take n l) (drop-drop m p xs)

  pub drop-slice : (k p n : ℕ) (xs : List A) → drop k (slice p n xs) ≡ slice (p + k) (n - k) xs
  drop-slice k p n xs = drop-take k n (drop p xs) ∙ ap (take (n - k)) (drop-drop k p xs)

  pub take-slice : (k p n : ℕ) (xs : List A) → k ≤ n → take k (slice p n xs) ≡ slice p k xs
  take-slice k p n xs h =
      take-take k n (drop p xs) ∙ ap (λ m. take m (drop p xs)) {x = min k n} {y = k} (omega arith)
