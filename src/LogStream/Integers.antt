-- ===== src/LogStream/Integers.antt =====
-- The operators of the stream for integers (base/LogStream.cpp: formatInteger).
use cc_server.Prelude.{
  ℕ, ◌+◌, ◌-◌, ◌^◌, ◌<◌, ◌≤◌, ◌≡◌, ◌∙◌, List, [], ◌∷◌, ◌++◌, arith, leb, if◌then◌else◌, length,
  length-append, append-nil, some, dec_lt,
}
use cc_server.Prelude.Slices.{overwrite, length-overwrite}
use cc_server.Prelude.Outcome.{ok}
use cc_server.Prelude.Int.{ℤ, abs}
use cc_server.FixedBuffer.{IsValid, contents, overwritten, write_here, add, avail}
use cc_server.Decimal.Inverse.{parse, convert_lem}
use cc_server.LogStream.{LogStream, small_buffer, max_numeric_size, format_integer, put_double}

-- The text of a number, of 31 characters at most, is appended if 32 bytes are free, and nothing
-- otherwise.
pub put_double_lem :
    (s : LogStream) (text : List ℕ)
    → IsValid small_buffer s
    → length text ≤ 31
    → (s' : LogStream) × (put_double s text ≡ ok s')
      × IsValid small_buffer s'
      × (contents s'
          ≡ contents s ++ (if leb max_numeric_size (small_buffer - s.cur) then text else []))
unfolding put_double write_here add avail
put_double_lem s text (len, low) short = elim (dec_lt (small_buffer - s.cur) max_numeric_size) [
  | yes full ↦ (s, ground arith, (len, low), ground (arith, append-nil (contents s)))
  | no room ↦ (
    record {
      data_bytes = overwrite s.cur (text ++ (0 ∷ [])) s.data_bytes;
      cur = s.cur + length text;
    },
    ground (arith, length-append text (0 ∷ [])),
    (
      length-overwrite s.cur (text ++ (0 ∷ [])) s.data_bytes
            (omega (arith, length-append text (0 ∷ [])))
          ∙ len,
      omega arith,
    ),
    overwritten s text (0 ∷ []) (omega (arith, length-append text (0 ∷ []))) ∙ ground arith,
  )
]

-- `formatInteger` of a number of 64 bits on a valid buffer ends inside the buffer, and appends a
-- text of at most 21 characters that reads as the number if 32 bytes are free, and nothing
-- otherwise.
pub format_integer_lem :
    (s : LogStream) (v : ℤ)
    → IsValid small_buffer s
    → abs v < 2 ^ 64
    → (s' : LogStream) × (text : List ℕ) × (format_integer s v ≡ ok s')
      × IsValid small_buffer s'
      × (parse text ≡ some v)
      × (contents s'
          ≡ contents s ++ (if leb max_numeric_size (small_buffer - s.cur) then text else []))
      × (length text ≤ 21)
unfolding format_integer put_double
format_integer_lem s v valid fits =
    let (text, e, reads, short) = convert_lem v (omega arith) in
    let (s', put, w, all) = put_double_lem s text valid (omega arith) in
    (s', text, ground (arith, e, put), w, reads, all, short)
