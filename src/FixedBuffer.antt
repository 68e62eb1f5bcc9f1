-- ===== src/FixedBuffer.antt =====
-- base/LogStream.h: FixedBuffer, an array of bytes with a write position. What does not fit is
-- dropped.
use cc_server.Prelude.{
  ℕ, ◌+◌, ◌-◌, ◌%◌, ◌^◌, ◌≤◌, ◌≡◌, refl, ap, ◌∙◌, Bool, true, List, [], ◌++◌, arith, ltb, leb,
  if◌then◌else◌, length, take, replicate, append-nil, length-append, take-append_left, dec_lt, ap₂,
  sym,
}
use cc_server.Prelude.Slices.{
  slice, overwrite, length-overwrite, slice-add, slice-overwrite_before, slice-overwrite_self,
  take-slice,
}
use cc_server.Prelude.Outcome.{Outcome, ok, in_bounds, ◌>>=◌, ◌>>◌}

-- `cur` is the offset of `cur_` in `data_`, which holds `SIZE` bytes.
pub record FixedBuffer : Type 0 where
  pub data_bytes : List ℕ
  pub cur : ℕ

-- `avail() > static_cast<int>(len)`: a length of 2 ^ 31 or more becomes a negative number.
abbrev pub is_above_int : ℕ → ℕ → Bool
is_above_int room len = if ltb (len % 2 ^ 32) (2 ^ 31) then ltb (len % 2 ^ 32) room else true

module _ (size : ℕ) where
  -- The bytes of a new array are whatever the memory holds.
  unfoldable pub create : List ℕ → FixedBuffer
  create memory = record { data_bytes = memory; cur = 0 }

  unfoldable pub filled : FixedBuffer → ℕ
  filled b = b.cur

  unfoldable pub avail : FixedBuffer → ℕ
  avail b = size - b.cur

  -- A copy to `cur_`.
  unfoldable pub write_here : List ℕ → FixedBuffer → Outcome FixedBuffer
  write_here xs b = do
    in_bounds (leb (b.cur + length xs) size)
    ok (record b { data_bytes = overwrite b.cur xs b.data_bytes })

  unfoldable pub add : FixedBuffer → ℕ → Outcome FixedBuffer
  add b len = do in_bounds (leb (b.cur + len) size); ok (record b { cur = b.cur + len })

  unfoldable pub append : FixedBuffer → List ℕ → Outcome FixedBuffer
  append b buf =
      if is_above_int (avail b) (length buf)
      then (do b' ← write_here buf b; add b' (length buf))
      else ok b

  unfoldable pub reset : FixedBuffer → FixedBuffer
  reset b = record b { cur = 0 }

  unfoldable pub bzero : FixedBuffer → FixedBuffer
  bzero b = record b { data_bytes = replicate size 0 }

  abbrev pub IsValid : FixedBuffer → Type 0
  IsValid b = (length b.data_bytes ≡ size) × (b.cur ≤ size)

-- What was appended.
abbrev pub contents : FixedBuffer → List ℕ
contents b = take b.cur b.data_bytes

-- Bytes written at the position are appended once the position moves behind the first of them.
pub overwritten :
    (b : FixedBuffer) (xs ys : List ℕ)
    → b.cur + length (xs ++ ys) ≤ length b.data_bytes
    → take (b.cur + length xs) (overwrite b.cur (xs ++ ys) b.data_bytes) ≡ contents b ++ xs
overwritten b xs ys h =
    slice-add 0 b.cur (length xs) whole
    ∙ ap₂ ◌++◌
        (slice-overwrite_before 0 b.cur b.cur (xs ++ ys) b.data_bytes (omega arith) (omega arith))
        (ap (λ i. slice i (length xs) whole) {x = 0 + b.cur} {y = b.cur} (omega arith)
          ∙ sym (
              take-slice (length xs) b.cur (length (xs ++ ys)) whole
                (omega (arith, length-append xs ys)))
          ∙ ap (take (length xs)) (slice-overwrite_self b.cur (xs ++ ys) b.data_bytes (omega arith))
          ∙ take-append_left (length xs) xs ys refl)
  where
    whole : List ℕ
    whole = overwrite b.cur (xs ++ ys) b.data_bytes

module _ (size : ℕ) where
  -- `append` on a valid buffer stays inside the array, and appends all the bytes if more than their
  -- number are free, and none otherwise.
  pub fixed_append_lem :
      (b : FixedBuffer) (buf : List ℕ)
      → IsValid size b
      → length buf ≤ 2 ^ 31 - 1
      → (b' : FixedBuffer) × (append size b buf ≡ ok b')
        × IsValid size b'
        × (contents b' ≡ contents b ++ (if ltb (length buf) (size - b.cur) then buf else []))
  unfolding append write_here add avail
  fixed_append_lem b buf (len, low) small = elim (dec_lt (length buf) (size - b.cur)) [
    | yes fits ↦ (
      record { data_bytes = overwrite b.cur buf b.data_bytes; cur = b.cur + length buf },
      ground arith,
      (length-overwrite b.cur buf b.data_bytes (omega arith) ∙ len, omega arith),
      ap (λ l. take (b.cur + length buf) (overwrite b.cur l b.data_bytes)) (sym (append-nil buf))
          ∙ overwritten b buf [] (omega (arith, length-append buf []))
          ∙ ground arith,
    )
    | no full ↦ (b, ground arith, (len, low), ground (arith, append-nil (contents b)))
  ]
