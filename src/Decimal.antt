-- ===== src/Decimal.antt =====
-- base/LogStream.cpp: `convert`, which writes an integer in decimal.
pub mod Inverse
use cc_server.Prelude.{
  ℕ, zero, suc, ◌+◌, ◌-◌, Bool, List, [], ◌∷◌, ◌++◌, Option, none, some, ◌==◌, if◌then◌else◌,
  get_or,
}
use cc_server.Prelude.Int.{ℤ, pos, negsuc, abs, is_negative, quotient, remainder}
use mathlib.Core.Option

-- "9876543210123456789", and the place of its 0.
abbrev pub digits : List ℕ
digits =
    57 ∷ 56 ∷ 55 ∷ 54 ∷ 53 ∷ 52 ∷ 51 ∷ 50 ∷ 49 ∷ 48 ∷ 49 ∷ 50 ∷ 51 ∷ 52 ∷ 53 ∷ 54 ∷ 55 ∷ 56 ∷ 57
    ∷ []

abbrev pub minus : ℕ
minus = 45

-- `zero[lsd]`, for an index from -9 to 9.
abbrev pub zero_at : ℤ → ℕ
zero_at (pos n) = get_or digits (9 + n) 0
zero_at (negsuc n) = get_or digits (8 - n) 0

-- `std::reverse`
abbrev pub reverse : List ℕ → List ℕ
reverse [] = []
reverse (x ∷ xs) = reverse xs ++ (x ∷ [])

-- The `do` loop, with fuel: the characters in the order in which they are written.
unfoldable pub low_digits : ℕ → ℤ → Option (List ℕ)
low_digits zero i = none
low_digits (suc fuel) i =
    let rest = low_digits fuel (quotient i 10) in
    let lsd = zero_at (remainder i 10) in
    if abs (quotient i 10) == 0 then some (lsd ∷ []) else Option.map (λ l. lsd ∷ l) rest

-- A number of 64 bits has at most 20 digits.
unfoldable pub convert : ℤ → Option (List ℕ)
unfolding low_digits
convert value =
    Option.map (λ l. reverse (if is_negative value then l ++ (minus ∷ []) else l))
      (low_digits 20 value)
