-- ===== src/Logging.antt =====
-- base/Logging.h and base/Logging.cpp: one line of the log, from the constructor of `Logger` to its
-- destructor, which hands the line to the back end.
pub mod Pieces
pub mod Lines
pub mod Output
use cc_server.Prelude.{ℕ, Bool, List, [], ◌∷◌, Option, some}
use cc_server.Prelude.Outcome.{Outcome, ok, ◌>>=◌}
use cc_server.Prelude.Int.{ℤ}
use cc_server.FixedBuffer
use cc_server.FixedBuffer.{contents}
use cc_server.LogStream.{
  LogStream, small_buffer, put_string, put_double, put_bool, put_char, format_integer,
}
use cc_server.CurrentThread.{CurrentThread, tid}

pub data LogLevel : Type 0 where
  trace_level debug_level info_level warn_level error_level fatal_level : LogLevel

-- `LogLevelName`
abbrev pub log_level_name : LogLevel → List ℕ
log_level_name trace_level = b'T' ∷ b'R' ∷ b'A' ∷ b'C' ∷ b'E' ∷ 32 ∷ []
log_level_name debug_level = b'D' ∷ b'E' ∷ b'B' ∷ b'U' ∷ b'G' ∷ 32 ∷ []
log_level_name info_level = b'I' ∷ b'N' ∷ b'F' ∷ b'O' ∷ 32 ∷ []
log_level_name warn_level = b'W' ∷ b'A' ∷ b'R' ∷ b'N' ∷ 32 ∷ []
log_level_name error_level = b'E' ∷ b'R' ∷ b'R' ∷ b'O' ∷ b'R' ∷ 32 ∷ []
log_level_name fatal_level = b'F' ∷ b'A' ∷ b'T' ∷ b'A' ∷ b'L' ∷ 32 ∷ []

-- `Logger::Impl`
pub record Impl : Type 0 where
  pub stream : LogStream
  pub level : LogLevel
  pub line : ℤ
  pub basename : List ℕ

abbrev pub put : List ℕ → LogStream → Outcome LogStream
put text s = put_string s (some text)

-- `time_text` is what strftime(3) wrote to `str_t`.
unfoldable pub format_time : List ℕ → LogStream → Outcome LogStream
format_time time_text s = put time_text s

-- The constructor, where `memory` is what the array of the stream holds at first, and gettid(2) and
-- snprintf(3) answer `id` and `text`.
unfoldable pub open_line :
    List ℕ
    → ℕ
    → List ℕ
    → List ℕ
    → LogLevel
    → List ℕ
    → ℤ
    → CurrentThread
    → Outcome (Impl × CurrentThread)
unfolding format_time tid
open_line memory id text time_text level file_name line thread = do
  s₁ ← put (log_level_name level) (FixedBuffer.create small_buffer memory)
  s₂ ← put (32 ∷ []) s₁
  let thread' = (tid id text thread).1
  s₃ ← put thread'.tid_string s₂
  s₄ ← put (32 ∷ []) s₃
  s₅ ← format_time time_text s₄
  ok (record { stream = s₅; level = level; line = line; basename = file_name }, thread')

-- The destructor: the bytes that `output` is given.
unfoldable pub close_line : Impl → Outcome (List ℕ)
close_line l = do
  s₁ ← put (45 ∷ 45 ∷ []) l.stream
  s₂ ← put l.basename s₁
  s₃ ← put (58 ∷ []) s₂
  s₄ ← format_integer s₃ l.line
  s₅ ← put (10 ∷ []) s₄
  ok (contents s₅)

-- What the user puts to the stream between the two, by the operator of its type. The text of a
-- floating point number is what snprintf(3) wrote.
pub data Piece : Type 0 where
  string : Option (List ℕ) → Piece
  integer : ℤ → Piece
  double : List ℕ → Piece
  boolean : Bool → Piece
  character : ℕ → Piece

abbrev pub put_piece : Piece → LogStream → Outcome LogStream
put_piece (string text) s = put_string s text
put_piece (integer v) s = format_integer s v
put_piece (double text) s = put_double s text
put_piece (boolean v) s = put_bool s v
put_piece (character v) s = put_char s v

abbrev pub put_pieces : List Piece → LogStream → Outcome LogStream
put_pieces [] s = ok s
put_pieces (x ∷ rest) s = do s' ← put_piece x s; put_pieces rest s'

-- Texts, one behind the other.
abbrev pub put_all : List (List ℕ) → LogStream → Outcome LogStream
put_all [] s = ok s
put_all (text ∷ rest) s = do s' ← put text s; put_all rest s'

-- `LOG_INFO << ...` and its like: the line, and what the thread keeps.
unfoldable pub log_line :
    List ℕ
    → ℕ
    → List ℕ
    → List ℕ
    → LogLevel
    → List ℕ
    → ℤ
    → List Piece
    → CurrentThread
    → Outcome (List ℕ × CurrentThread)
unfolding open_line close_line
log_line memory id text time_text level file_name line pieces thread = do
  (l, thread') ← open_line memory id text time_text level file_name line thread
  s ← put_pieces pieces l.stream
  written ← close_line (record l { stream = s })
  ok (written, thread')
