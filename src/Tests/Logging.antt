-- ===== src/Tests/Logging.antt =====
-- Uses of the theorems on the logging library.
use cc_server.Prelude.{
  ℕ, ◌≤◌, ◌≡◌, refl, List, [], ◌∷◌, some, arith, length, replicate, length-replicate,
}
use cc_server.Prelude.Outcome.{ok}
use cc_server.Prelude.Int.{pos, negsuc}
use cc_server.FixedBuffer.{FixedBuffer, create, IsValid, contents}
use cc_server.Decimal.{convert}
use cc_server.Decimal.Inverse.{parse}
use cc_server.LogStream.{small_buffer, format_integer}
use cc_server.LogStream.Integers.{format_integer_lem}

convert_of_minus_120 : convert (negsuc 119) ≡ some (45 ∷ 49 ∷ 50 ∷ 48 ∷ [])
unfolding convert
convert_of_minus_120 = refl

abbrev line : FixedBuffer
line = create small_buffer (replicate small_buffer 0)

line-IsValid : IsValid small_buffer line
unfolding create
line-IsValid = (length-replicate {A = ℕ} small_buffer 0, omega arith)

format_integer_lem_example :
    (s : FixedBuffer) × (text : List ℕ) × (format_integer line (pos 64) ≡ ok s)
    × IsValid small_buffer s
    × (parse text ≡ some (pos 64))
    × (contents s ≡ text)
    × (length text ≤ 21)
unfolding create
format_integer_lem_example = format_integer_lem line (pos 64) line-IsValid (omega arith)
