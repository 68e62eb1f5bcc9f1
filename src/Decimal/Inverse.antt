-- ===== src/Decimal/Inverse.antt =====
-- What `convert` writes is read again as the number (base/LogStream.cpp).
use cc_server.Prelude.{
  ℕ, zero, suc, ◌+◌, ◌-◌, ◌*◌, ◌/◌, ◌%◌, ◌^◌, ◌≤◌, ◌<◌, ◌≡◌, refl, ap, ◌∙◌, ◌&&◌, List, [], ◌∷◌,
  ◌++◌, arith, leb, ◌==◌, if◌then◌else◌, length, length-append, Option, none, some, ℕ_discrete,
  dec_lt, get_or, Bool-cases, inl, inr,
}
use cc_server.Prelude.Int.{ℤ, pos, negsuc, neg, abs, quotient, remainder}
use cc_server.Decimal.{digits, minus, zero_at, reverse, low_digits, convert}
use mathlib.Core.Option

-- A decimal text read from the left, with what was read before it.
unfoldable decimal : ℕ → List ℕ → Option ℕ
decimal n [] = some n
decimal n (c ∷ rest) =
    let more = decimal (10 * n + (c - 48)) rest in if leb 48 c && leb c 57 then more else none

-- A decimal text that may have a minus in front.
unfoldable pub parse : List ℕ → Option ℤ
unfolding decimal
parse [] = none
parse (c ∷ rest) =
    if c == minus then Option.map neg (decimal 0 rest) else Option.map pos (decimal 0 (c ∷ rest))

digit_up : (k : ℕ) → k < 10 → get_or digits (9 + k) 0 ≡ 48 + k
digit_up zero h = refl
digit_up (suc zero) h = refl
digit_up (suc (suc zero)) h = refl
digit_up (suc (suc (suc zero))) h = refl
digit_up (suc (suc (suc (suc zero)))) h = refl
digit_up (suc (suc (suc (suc (suc zero))))) h = refl
digit_up (suc (suc (suc (suc (suc (suc zero)))))) h = refl
digit_up (suc (suc (suc (suc (suc (suc (suc zero))))))) h = refl
digit_up (suc (suc (suc (suc (suc (suc (suc (suc zero)))))))) h = refl
digit_up (suc (suc (suc (suc (suc (suc (suc (suc (suc zero))))))))) h = refl
digit_up (suc (suc (suc (suc (suc (suc (suc (suc (suc (suc k)))))))))) h = absurd (omega arith)

digit_down : (k : ℕ) → k < 9 → get_or digits (8 - k) 0 ≡ 49 + k
digit_down zero h = refl
digit_down (suc zero) h = refl
digit_down (suc (suc zero)) h = refl
digit_down (suc (suc (suc zero))) h = refl
digit_down (suc (suc (suc (suc zero)))) h = refl
digit_down (suc (suc (suc (suc (suc zero))))) h = refl
digit_down (suc (suc (suc (suc (suc (suc zero)))))) h = refl
digit_down (suc (suc (suc (suc (suc (suc (suc zero))))))) h = refl
digit_down (suc (suc (suc (suc (suc (suc (suc (suc zero)))))))) h = refl
digit_down (suc (suc (suc (suc (suc (suc (suc (suc (suc k))))))))) h = absurd (omega arith)

abs-neg : (n : ℕ) → abs (neg n) ≡ n
abs-neg zero = refl
abs-neg (suc n) = refl

zero_at-neg : (k : ℕ) → k < 10 → zero_at (neg k) ≡ 48 + k
zero_at-neg zero h = refl
zero_at-neg (suc k) h = omega (arith, digit_down k (omega arith))

-- The table gives the digit of the absolute value.
zero_at-remainder : (v : ℤ) → zero_at (remainder v 10) ≡ 48 + abs v % 10
zero_at-remainder (pos n) = digit_up (n % 10) (omega arith)
zero_at-remainder (negsuc n) = zero_at-neg (suc n % 10) (omega arith)

abs-quotient : (v : ℤ) → abs (quotient v 10) ≡ abs v / 10
abs-quotient (pos n) = refl
abs-quotient (negsuc n) = abs-neg (suc n / 10)

decimal-snoc :
    (n m d : ℕ) (xs : List ℕ)
    → decimal n xs ≡ some m
    → d < 10
    → decimal n (xs ++ ((48 + d) ∷ [])) ≡ some (10 * m + d)
unfolding decimal
decimal-snoc n m d [] e h = ground (arith, e)
decimal-snoc n m d (c ∷ xs) e h = elim (Bool-cases (leb 48 c && leb c 57)) [
  | inl digit ↦ rw digit (decimal-snoc (10 * n + (c - 48)) m d xs (rw digit at e) h)
  | inr other ↦ absurd (ground (arith, e, other))
]

-- What the loop writes, read from its end.
record Digits (fuel : ℕ) (v : ℤ) (l : List ℕ) : Type 0 where
  stops : low_digits fuel v ≡ some l
  reads : decimal 0 (reverse l) ≡ some (abs v)
  short : length l ≤ fuel
  some_digit : 0 < length l

one_digit : (fuel : ℕ) (v : ℤ) → abs v < 10 → (l : List ℕ) × Digits (suc fuel) v l
unfolding low_digits decimal
one_digit fuel v h = (
  (48 + abs v) ∷ [],
  record {
    stops = ground (arith, abs-quotient v, zero_at-remainder v);
    reads = ground arith;
    short = omega arith;
    some_digit = omega arith;
  },
)

low_digits_lem : (fuel : ℕ) (v : ℤ) → abs v < 10 ^ suc fuel → (l : List ℕ) × Digits (suc fuel) v l
unfolding low_digits
low_digits_lem zero v h = one_digit 0 v (omega arith)
low_digits_lem (suc fuel) v h = elim (dec_lt (abs v) 10) [
  | yes lt ↦ one_digit (suc fuel) v lt
  | no ge ↦
      let (l, d) = low_digits_lem fuel (quotient v 10) (omega (arith, abs-quotient v, h)) in
      (
        (48 + abs v % 10) ∷ l,
        record {
          stops = ground (arith, d.stops, abs-quotient v, zero_at-remainder v);
          reads =
              decimal-snoc 0 (abs v / 10) (abs v % 10) (reverse l)
                (d.reads ∙ ap some (abs-quotient v)) (omega arith)
              ∙ ap some (omega arith);
          short = omega (arith, d.short);
          some_digit = omega arith;
        },
      )
]

parse-decimal : (s : List ℕ) (n : ℕ) → decimal 0 s ≡ some n → 0 < length s → parse s ≡ some (pos n)
unfolding parse decimal
parse-decimal [] n e h = absurd (omega arith)
parse-decimal (c ∷ rest) n e h = elim (ℕ_discrete c minus) [
  | yes sign ↦ absurd (ground (arith, e, sign))
  | no digit ↦ ground (arith, e)
]

length-reverse : (xs : List ℕ) → length (reverse xs) ≡ length xs
length-reverse [] = refl
length-reverse (x ∷ xs) = omega (arith, length-append (reverse xs) (x ∷ []), length-reverse xs)

reverse-snoc : (xs : List ℕ) (x : ℕ) → reverse (xs ++ (x ∷ [])) ≡ x ∷ reverse xs
reverse-snoc [] x = refl
reverse-snoc (y ∷ xs) x = ap (λ l. l ++ (y ∷ [])) (reverse-snoc xs x)

-- `convert` ends for every number below 10 ^ 20 in absolute value, and its text, of at most 21
-- characters, reads as the number.
pub convert_lem :
    (v : ℤ)
    → abs v < 10 ^ 20
    → (s : List ℕ) × (convert v ≡ some s) × (parse s ≡ some v) × (length s ≤ 21)
unfolding convert parse
convert_lem (pos n) h =
    let (l, d) = low_digits_lem 19 (pos n) h in
    (
      reverse l,
      ground (arith, d.stops),
      parse-decimal (reverse l) n d.reads (omega (arith, length-reverse l, d.some_digit)),
      omega (arith, length-reverse l, d.short),
    )
convert_lem (negsuc n) h =
    let (l, d) = low_digits_lem 19 (negsuc n) h in
    (
      minus ∷ reverse l,
      ground (arith, d.stops, reverse-snoc l minus),
      ground (arith, d.reads),
      omega (arith, length-reverse l, d.short),
    )
