-- ===== src/Logging/Lines.antt =====
-- What a line of the log holds (base/Logging.cpp).
use cc_server.Prelude.{
  concat, ℕ, ◌+◌, ◌-◌, ◌^◌, ◌≤◌, ◌<◌, ◌≡◌, ap, ◌∙◌, List, [], ◌∷◌, ◌++◌, some, arith, length,
  length-append, if◌then◌else◌, leb,
}
use cc_server.Prelude.Outcome.{ok}
use cc_server.Prelude.Int.{ℤ, abs}
use cc_server.FixedBuffer
use cc_server.FixedBuffer.{IsValid, contents, fixed_append_lem}
use cc_server.Decimal.Inverse.{parse}
use cc_server.LogStream.{LogStream, small_buffer, max_numeric_size, format_integer}
use cc_server.LogStream.Integers.{format_integer_lem}
use cc_server.CurrentThread.{CurrentThread, tid}
use cc_server.Logging.{
  Piece, LogLevel, trace_level, debug_level, info_level, warn_level, error_level, fatal_level,
  log_level_name, put, put_all, format_time, open_line, close_line, log_line, Impl,
}
use cc_server.Logging.Pieces.{
  length-contents, Adds, put-Adds, Adds-trans, put_all-Adds, Adds-with_slack, AllShow, ArePieces,
  put_pieces-Adds,
}

-- The texts of the constructor, and those of the destructor before and after the number.
abbrev pub head : LogLevel → List ℕ → List ℕ → List (List ℕ)
head level tid_string time_text =
    log_level_name level ∷ (32 ∷ []) ∷ tid_string ∷ (32 ∷ []) ∷ time_text ∷ []

abbrev pub place : List ℕ → List (List ℕ)
place file_name = (45 ∷ 45 ∷ []) ∷ file_name ∷ (58 ∷ []) ∷ []

name_small : (level : LogLevel) → length (log_level_name level) ≤ 2 ^ 31 - 1
name_small trace_level = omega arith
name_small debug_level = omega arith
name_small info_level = omega arith
name_small warn_level = omega arith
name_small error_level = omega arith
name_small fatal_level = omega arith

open_line_lem :
    (memory : List ℕ) (id : ℕ) (text time_text : List ℕ) (level : LogLevel) (file_name : List ℕ)
    (line : ℤ) (thread : CurrentThread) (s : LogStream)
    → put_all
        (head level (tid id text thread).1.tid_string time_text)
        (FixedBuffer.create small_buffer memory)
      ≡ ok s
    → open_line memory id text time_text level file_name line thread
      ≡ ok (
        record { stream = s; level = level; line = line; basename = file_name },
        (tid id text thread).1,
      )
unfolding open_line format_time
open_line_lem memory id text time_text level file_name line thread s e = ground (arith, e)

close_line_lem :
    (l : Impl) (s t u : LogStream)
    → put_all (place l.basename) l.stream ≡ ok s
    → format_integer s l.line ≡ ok t
    → put (10 ∷ []) t ≡ ok u
    → close_line l ≡ ok (contents u)
unfolding close_line
close_line_lem l s t u e e' e'' = ground (arith, e, e', e'')

-- All that a line holds before its number.
abbrev pub before_number : LogLevel → List ℕ → List ℕ → List (List ℕ) → List ℕ → List ℕ
before_number level tid_string time_text pieces file_name =
    (concat (head level tid_string time_text) ++ concat pieces) ++ concat (place file_name)

-- The texts fit the type of their length.
abbrev pub IsPrintable : List ℕ → List ℕ → List Piece → List ℕ → Type 0
IsPrintable tid_string time_text pieces file_name =
    (length tid_string ≤ 2 ^ 31 - 1)
    × (length time_text ≤ 2 ^ 31 - 1)
    × ArePieces pieces
    × (length file_name ≤ 2 ^ 31 - 1)

number_and_end :
    (s t u : LogStream) (number before : List ℕ)
    → IsValid small_buffer s
    → contents s ≡ before
    → length before + max_numeric_size ≤ small_buffer
    → contents t
      ≡ contents s ++ (if leb max_numeric_size (small_buffer - s.cur) then number else [])
    → length number ≤ 21
    → Adds 1 t (10 ∷ []) u
    → contents u ≡ before ++ number ++ (10 ∷ [])
number_and_end s t u number before v all room printed short a =
    let same : contents t ≡ before ++ number =
      ground (arith, printed, all, room, length-contents s v, ap length all) in
    a.added (omega (arith, ap length same, length-append before number, short, room))
    ∙ ap (λ l. l ++ (10 ∷ [])) same

-- A line of the log always goes through, and is never longer than a buffer of the stream. If it
-- fits with 32 bytes for its number, it is the name of the level, the thread's number and the time,
-- what the user put to the stream, and then the file's name and a text that reads as the line's
-- number, in order. What the user puts are strings, a null pointer among them, integers, which appear
-- as texts that read as them, floating point numbers, Booleans and characters. Assumed: the array's
-- size, no text is 2 ^ 31 bytes long, integers of 64 bits, and floating point numbers that snprintf(3)
-- writes in 31 characters.
pub log_line_lem :
    (memory : List ℕ) (id : ℕ) (text time_text : List ℕ) (level : LogLevel) (file_name : List ℕ)
    (line : ℤ) (pieces : List Piece) (thread : CurrentThread)
    → length memory ≡ small_buffer
    → IsPrintable (tid id text thread).1.tid_string time_text pieces file_name
    → abs line < 2 ^ 64
    → (written number : List ℕ) × (shown : List (List ℕ)) × (log_line memory id text time_text level
          file_name line pieces thread
        ≡ ok (written, (tid id text thread).1))
      × (length written ≤ small_buffer)
      × AllShow pieces shown
      × (parse number ≡ some line)
      × (length (before_number level (tid id text thread).1.tid_string time_text shown file_name)
              + max_numeric_size
            ≤ small_buffer
          → written
            ≡ before_number level (tid id text thread).1.tid_string time_text shown file_name
              ++ number
              ++ (10 ∷ []))
unfolding log_line FixedBuffer.create
log_line_lem memory id text time_text level file_name line pieces thread full (n, m, small, k)
      fits =
    let tid_string = (tid id text thread).1.tid_string in
    let s : LogStream = FixedBuffer.create small_buffer memory in
    let (s₁, e₁, a₁) =
      put_all-Adds (head level tid_string time_text) s (full, omega arith)
        (name_small level, (omega arith, (n, (omega arith, (m, tt))))) in
    let (s₂, shown, e₂, shows, a₂) = put_pieces-Adds pieces s₁ a₁.valid small in
    let (s₃, e₃, a₃) =
      put_all-Adds (place file_name) s₂ a₂.valid (omega arith, (k, (omega arith, tt))) in
    let (s₄, number, e₄, v₄, reads, printed, short) = format_integer_lem s₃ line a₃.valid fits in
    let (s₅, e₅, a₅) = put-Adds (10 ∷ []) s₄ v₄ (omega arith) in
    let all =
      Adds-trans max_numeric_size s s₂ s₃ (concat (head level tid_string time_text) ++ concat shown)
        (concat (place file_name))
        (Adds-trans max_numeric_size s s₁ s₂ (concat (head level tid_string time_text))
          (concat shown) (Adds-with_slack s s₁ (concat (head level tid_string time_text)) a₁) a₂)
        (Adds-with_slack s₂ s₃ (concat (place file_name)) a₃) in
    let opened = open_line_lem memory id text time_text level file_name line thread s₁ e₁ in
    let closed =
      close_line_lem (record { stream = s₂; level = level; line = line; basename = file_name }) s₃
        s₄ s₅ e₃ e₄ e₅ in
    (
      contents s₅,
      number,
      shown,
      ground (arith, opened, e₂, closed),
      omega (arith, length-contents s₅ a₅.valid, a₅.valid.1),
      shows,
      reads,
      λ room.
          number_and_end s₃ s₄ s₅ number (before_number level tid_string time_text shown file_name)
            a₃.valid (all.added (omega (arith, room))) room printed short a₅,
    )
