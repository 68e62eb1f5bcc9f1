-- ===== src/Tests/LogLines.antt =====
-- The line 64 of a.c, with a text and a number.
use cc_server.Prelude.{ℕ, ◌+◌, ◌≤◌, ◌≡◌, refl, List, [], ◌∷◌, ◌++◌, some, arith, length, replicate}
use cc_server.Prelude.Outcome.{ok}
use cc_server.Prelude.Int.{pos, neg}
use cc_server.Decimal.Inverse.{parse}
use cc_server.LogStream.{small_buffer, large_buffer, max_numeric_size}
use cc_server.CurrentThread.{CurrentThread, tid}
use cc_server.Logging.{Piece, string, integer, info_level, log_line}
use cc_server.FixedBuffer.{FixedBuffer, create}
use cc_server.LogFile.{LogFile}
use cc_server.Logging.Output.{Statement, Happening, logs, renames, goes_on}
use cc_server.Logging.Pieces.{AllShow}
use cc_server.Logging.Lines.{before_number, log_line_lem}

abbrev new_thread : CurrentThread
new_thread = record { cached_tid = 0; tid_string = []; tid_string_length = 6 }

-- "    7 ", "now" and "a.c"
abbrev seven : List ℕ
seven = 32 ∷ 32 ∷ 32 ∷ 32 ∷ 55 ∷ 32 ∷ []

abbrev noon : List ℕ
noon = 110 ∷ 111 ∷ 119 ∷ 10 ∷ []

abbrev file : List ℕ
file = 97 ∷ 46 ∷ 99 ∷ []

-- "hi" and -5
abbrev said : List Piece
said = string (some (104 ∷ 105 ∷ [])) ∷ integer (neg 5) ∷ []

log_line_lem_example :
    (written number : List ℕ) × (shown : List (List ℕ)) × (log_line
        (replicate small_buffer 0)
        7
        seven
        noon
        info_level
        file
        (pos 64)
        said
        new_thread
      ≡ ok (written, (tid 7 seven new_thread).1))
    × (length written ≤ small_buffer)
    × AllShow said shown
    × (parse number ≡ some (pos 64))
    × (length (before_number info_level seven noon shown file) + max_numeric_size ≤ small_buffer
        → written ≡ before_number info_level seven noon shown file ++ number ++ (10 ∷ []))
unfolding tid
log_line_lem_example =
    log_line_lem (replicate small_buffer 0) 7 seven noon info_level file (pos 64) said new_thread
      refl (omega arith, omega arith, (omega arith, (omega arith, tt)), omega arith) (omega arith)

abbrev hello : Statement
hello = record {
  memory = replicate small_buffer 0;
  id = 7;
  text = seven;
  time_text = noon;
  level = info_level;
  file_name = file;
  line = pos 64;
  pieces = said;
  thread = new_thread;
}

-- A buffer of `AsyncLogging`.
abbrev blank : FixedBuffer
blank = create large_buffer (replicate large_buffer 0)

abbrev happenings : List Happening
happenings = goes_on ∷ logs hello ∷ renames (46 ∷ 47 ∷ []) ∷ goes_on ∷ logs hello ∷ []

abbrev new_log : LogFile
new_log = record {
  file = record { written = []; flushed = []; calls = 0 };
  flush_every = 1024;
  count = 0;
}
