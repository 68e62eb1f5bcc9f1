-- ===== src/LogStream.antt =====
-- base/LogStream.h and base/LogStream.cpp: the stream of one line, and its operators. The text of a
-- floating point number, which snprintf(3) writes, is an argument.
pub mod Integers
use cc_server.Prelude.{
  ℕ, ◌+◌, ◌*◌, Bool, List, [], ◌∷◌, ◌++◌, Option, none, some, leb, if◌then◌else◌, length,
}
use cc_server.Prelude.Outcome.{Outcome, ok, undefined, ◌>>=◌}
use cc_server.Prelude.Int.{ℤ}
use cc_server.FixedBuffer
use cc_server.FixedBuffer.{FixedBuffer, avail, write_here, add}
use cc_server.Decimal.{convert}

abbrev pub small_buffer : ℕ
small_buffer = 4000

abbrev pub large_buffer : ℕ
large_buffer = 4000 * 1000

abbrev pub max_numeric_size : ℕ
max_numeric_size = 32

-- The stream is its buffer.
abbrev pub LogStream : Type 0
LogStream = FixedBuffer

abbrev pub append : LogStream → List ℕ → Outcome LogStream
append s text = FixedBuffer.append small_buffer s text

unfoldable pub put_bool : LogStream → Bool → Outcome LogStream
put_bool s v = append s (if v then 49 ∷ [] else 48 ∷ [])

unfoldable pub put_char : LogStream → ℕ → Outcome LogStream
put_char s v = append s (v ∷ [])

-- A null pointer is `none`.
unfoldable pub put_string : LogStream → Option (List ℕ) → Outcome LogStream
put_string s none = append s (40 ∷ 110 ∷ 117 ∷ 108 ∷ 108 ∷ 41 ∷ [])
put_string s (some text) = append s text

-- What `convert` writes at `current()`, its NUL included. A loop that does not end has no text.
unfoldable write_text : LogStream → Option (List ℕ) → Outcome LogStream
write_text s none = undefined
write_text s (some text) = do
  s' ← write_here small_buffer (text ++ (0 ∷ [])) s
  add small_buffer s' (length text)

unfoldable pub format_integer : LogStream → ℤ → Outcome LogStream
unfolding write_text
format_integer s v =
    if leb max_numeric_size (avail small_buffer s) then write_text s (convert v) else ok s

-- The text is what snprintf(3) wrote, without its NUL.
unfoldable pub put_double : LogStream → List ℕ → Outcome LogStream
unfolding write_text
put_double s text =
    if leb max_numeric_size (avail small_buffer s) then write_text s (some text) else ok s

unfoldable pub reset_buffer : LogStream → LogStream
reset_buffer s = FixedBuffer.reset small_buffer s
