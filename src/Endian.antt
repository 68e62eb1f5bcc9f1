-- ===== src/Endian.antt =====
-- Integers as bytes in memory, and the conversions of <endian.h>. A signed integer of `n` bytes is
-- its bit pattern, a number below `256 ^ n`.
use cc_server.Prelude.{
  ℕ, zero, suc, ◌+◌, ◌*◌, ◌/◌, ◌%◌, ◌^◌, ◌<◌, ◌≡◌, refl, ap, ◌∙◌, List, [], ◌∷◌, ◌++◌, arith,
  length, length-append,
}
use mathlib.Core.List.{reverse, reverse-cons, reverse-reverse}
use native.Mathlib.Nat.{pow-suc}

pub data ByteOrder : Type 0 where
  little big : ByteOrder

-- The lowest `n` bytes of a number, the lowest first.
unfoldable pub low_bytes : ℕ → ℕ → List ℕ
low_bytes zero x = []
low_bytes (suc n) x = (x % 256) ∷ low_bytes n (x / 256)

pub value_of : List ℕ → ℕ
value_of [] = 0
value_of (b ∷ bs) = b + 256 * value_of bs

-- The bytes of an integer object in memory, and the integer that such bytes are.
unfoldable pub store : ByteOrder → ℕ → ℕ → List ℕ
store little n x = low_bytes n x
store big n x = reverse (low_bytes n x)

unfoldable pub load : ByteOrder → List ℕ → ℕ
load little bs = value_of bs
load big bs = value_of (reverse bs)

-- `htobe16/32/64` and `be16/32/64toh`: a byte swap on a little-endian host.
unfoldable pub htobe : ByteOrder → ℕ → ℕ → ℕ
htobe little n x = value_of (reverse (low_bytes n x))
htobe big n x = x

unfoldable pub betoh : ByteOrder → ℕ → ℕ → ℕ
betoh little n x = value_of (reverse (low_bytes n x))
betoh big n x = x

-- Network order: the highest byte first.
unfoldable pub network_bytes : ℕ → ℕ → List ℕ
network_bytes n x = reverse (low_bytes n x)

abbrev IsBytes : List ℕ → Type 0
IsBytes [] = Unit {0}
IsBytes (b ∷ bs) = (b < 256) × IsBytes bs

length-low_bytes : (n x : ℕ) → length (low_bytes n x) ≡ n
unfolding low_bytes
length-low_bytes zero x = refl
length-low_bytes (suc n) x = ap suc (length-low_bytes n (x / 256))

low_bytes-IsBytes : (n x : ℕ) → IsBytes (low_bytes n x)
unfolding low_bytes
low_bytes-IsBytes zero x = tt
low_bytes-IsBytes (suc n) x = (omega arith, low_bytes-IsBytes n (x / 256))

value_of-low_bytes : (n x : ℕ) → x < 256 ^ n → value_of (low_bytes n x) ≡ x
unfolding low_bytes value_of
value_of-low_bytes zero x h = omega arith
value_of-low_bytes (suc n) x h =
    omega (arith, pow-suc 256 n, value_of-low_bytes n (x / 256) (omega (arith, pow-suc 256 n)))

low_bytes-value_of :
    (n : ℕ) (bs : List ℕ) → n ≡ length bs → IsBytes bs → low_bytes n (value_of bs) ≡ bs
unfolding low_bytes value_of
low_bytes-value_of zero [] e h = refl
low_bytes-value_of zero (b ∷ bs) e h = absurd (omega arith)
low_bytes-value_of (suc n) [] e h = absurd (omega arith)
low_bytes-value_of (suc n) (b ∷ bs) e h =
    ground (arith, low_bytes-value_of n bs (omega arith) h.1, low, high)
  where
    low : (b + 256 * value_of bs) % 256 ≡ b
    low = omega arith

    high : (b + 256 * value_of bs) / 256 ≡ value_of bs
    high = omega arith

IsBytes-append : (xs ys : List ℕ) → IsBytes xs → IsBytes ys → IsBytes (xs ++ ys)
IsBytes-append [] ys hx hy = hy
IsBytes-append (x ∷ xs) ys hx hy = (hx.0, IsBytes-append xs ys hx.1 hy)

IsBytes-reverse : (xs : List ℕ) → IsBytes xs → IsBytes (reverse xs)
IsBytes-reverse [] h = tt
IsBytes-reverse (x ∷ xs) h =
    rw (reverse-cons x xs) (IsBytes-append (reverse xs) (x ∷ []) (IsBytes-reverse xs h.1) (h.0, tt))

length-reverse : (xs : List ℕ) → length (reverse xs) ≡ length xs
length-reverse [] = refl
length-reverse (x ∷ xs) =
    omega
      (arith, ap length (reverse-cons x xs), length-append (reverse xs) (x ∷ []), length-reverse xs)

pub length-network_bytes : (n x : ℕ) → length (network_bytes n x) ≡ n
unfolding network_bytes
length-network_bytes n x = length-reverse (low_bytes n x) ∙ length-low_bytes n x

-- Swapped and stored, an integer stands in network order in memory, whatever the host.
pub store-htobe : (o : ByteOrder) (n x : ℕ) → store o n (htobe o n x) ≡ network_bytes n x
unfolding store htobe network_bytes
store-htobe big n x = refl
store-htobe little n x =
    low_bytes-value_of n (reverse (low_bytes n x))
      (omega (arith, length-reverse (low_bytes n x), length-low_bytes n x))
      (IsBytes-reverse (low_bytes n x) (low_bytes-IsBytes n x))

-- Loaded and swapped, bytes in network order are the integer again.
pub betoh-load :
    (o : ByteOrder) (n x : ℕ) → x < 256 ^ n → betoh o n (load o (network_bytes n x)) ≡ x
unfolding betoh load network_bytes
betoh-load big n x h = ap value_of (reverse-reverse (low_bytes n x)) ∙ value_of-low_bytes n x h
betoh-load little n x h =
    ap (λ l. value_of (reverse l))
      (low_bytes-value_of n (reverse (low_bytes n x))
        (omega (arith, length-reverse (low_bytes n x), length-low_bytes n x))
        (IsBytes-reverse (low_bytes n x) (low_bytes-IsBytes n x)))
    ∙ ap value_of (reverse-reverse (low_bytes n x))
    ∙ value_of-low_bytes n x h

-- One byte stands in memory in one way only.
pub store_one : (o : ByteOrder) (x : ℕ) → store o 1 x ≡ network_bytes 1 x
unfolding store network_bytes low_bytes
store_one little x = refl
store_one big x = refl

pub load_one : (o : ByteOrder) (x : ℕ) → x < 256 → load o (network_bytes 1 x) ≡ x
unfolding load network_bytes low_bytes value_of
load_one little x h = omega arith
load_one big x h = omega arith
