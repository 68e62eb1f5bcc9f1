-- ===== src/Logging/Output.antt =====
-- base/Logging.cpp: the back end of the log, which the first line makes, and the program's lines.
mod Runs
pub mod EndToEnd
use cc_server.Prelude.{ℕ, ◌+◌, List, [], ◌∷◌, ◌++◌, Option, none, some}
use cc_server.Prelude.Outcome.{Outcome, ok, ◌>>=◌}
use cc_server.Prelude.Int.{ℤ}
use cc_server.FixedBuffer.{FixedBuffer}
use cc_server.CurrentThread.{CurrentThread}
use cc_server.AsyncLogging.Session.{Session, said, turned, start, happen}
use cc_server.Logging.{LogLevel, Piece, log_line}

-- `"./scc_WebServer.log"`
abbrev pub default_log_file_name : List ℕ
default_log_file_name =
    b'.' ∷ b'/' ∷ b's' ∷ b'c' ∷ b'c' ∷ b'_' ∷ b'W' ∷ b'e' ∷ b'b' ∷ b'S' ∷ b'e' ∷ b'r' ∷ b'v' ∷ b'e'
    ∷ b'r' ∷ b'.' ∷ b'l' ∷ b'o' ∷ b'g' ∷ []

-- A statement of the log, with what the calls of the system answer while it runs, in a thread that
-- keeps `thread`.
pub record Statement : Type 0 where
  pub memory : List ℕ
  pub id : ℕ
  pub text : List ℕ
  pub time_text : List ℕ
  pub level : LogLevel
  pub file_name : List ℕ
  pub line : ℤ
  pub pieces : List Piece
  pub thread : CurrentThread

unfoldable pub line_of : Statement → Outcome (List ℕ)
line_of s = do
  (written, thread') ←
      log_line s.memory s.id s.text s.time_text s.level s.file_name s.line s.pieces s.thread
  ok written

-- A statement runs, `setLogFileName` is called, or the writing thread goes on, once there is one.
pub data Happening : Type 0 where
  logs : Statement → Happening
  renames : List ℕ → Happening
  goes_on : Happening

-- `fresh` is what `new Buffer` makes.
module _ (size : ℕ) (fresh : FixedBuffer) where
  -- `logger` is `AsyncLogger_`, and `starts` how often `once_init` ran.
  pub record BackEnd : Type 0 where
    pub log_file_name : List ℕ
    pub logger : Option (Session size fresh)
    pub starts : ℕ

  abbrev pub initial : BackEnd
  initial = record { log_file_name = default_log_file_name; logger = none; starts = 0 }

  unfoldable pub set_log_file_name : List ℕ → BackEnd → BackEnd
  set_log_file_name name b = record b { log_file_name = name }

  unfoldable pub get_log_file_name : BackEnd → List ℕ
  get_log_file_name b = b.log_file_name

  -- `once_init`, and the logger that it makes.
  unfoldable pub once_init : BackEnd → Outcome (BackEnd × Session size fresh)
  unfolding get_log_file_name
  once_init b = do
    s ← start size fresh (get_log_file_name b)
    ok (record b { logger = some s; starts = b.starts + 1 }, s)

  -- `pthread_once`: the logger, made by the first call.
  unfoldable pub once :
      BackEnd → Option (Session size fresh) → Outcome (BackEnd × Session size fresh)
  unfolding once_init
  once b none = once_init b
  once b (some s) = ok (b, s)

  unfoldable pub output : List ℕ → BackEnd → Outcome BackEnd
  unfolding once
  output line b = do
    (b', s) ← once b b.logger
    s' ← happen size fresh s (said line)
    ok (record b' { logger = some s' })

  -- A turn of the writing thread.
  abbrev pub turn_if : BackEnd → Option (Session size fresh) → Outcome BackEnd
  turn_if b none = ok b
  turn_if b (some s) = do s' ← happen size fresh s turned; ok (record b { logger = some s' })

  unfoldable pub happen_next : Happening → BackEnd → Outcome BackEnd
  unfolding output line_of set_log_file_name
  happen_next (logs statement) b = do line ← line_of statement; output line b
  happen_next (renames name) b = ok (set_log_file_name name b)
  happen_next goes_on b = turn_if b b.logger

  unfoldable pub happen_all : List Happening → BackEnd → Outcome BackEnd
  unfolding happen_next
  happen_all [] b = ok b
  happen_all (h ∷ hs) b = do b' ← happen_next h b; happen_all hs b'

-- The lines of the statements, one behind the other.
unfoldable pub lines_of : List Happening → Outcome (List ℕ)
unfolding line_of
lines_of [] = ok []
lines_of (logs s ∷ hs) = do line ← line_of s; rest ← lines_of hs; ok (line ++ rest)
lines_of (renames name ∷ hs) = lines_of hs
lines_of (goes_on ∷ hs) = lines_of hs
