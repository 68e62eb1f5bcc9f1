-- ===== src/Logging/Output/Runs.antt =====
-- The logger that the program's first line makes, while its thread runs (base/Logging.cpp,
-- base/AsyncLogging.cpp).
use cc_server.Prelude.{ℕ, ◌^◌, ◌≤◌, ◌<◌, ◌≡◌, refl, ◌∙◌, true, false, List, [], ◌++◌, arith, length}
use cc_server.Prelude.Outcome.{ok}
use cc_server.Prelude.Int.{abs}
use cc_server.FixedBuffer.{FixedBuffer}
use cc_server.LogStream.{small_buffer}
use cc_server.CurrentThread.{tid}
use cc_server.Logging.Lines.{IsPrintable, log_line_lem}
use cc_server.AsyncLogging.{System, step}
use cc_server.AsyncLogging.Live.{Valid, Inv}
use cc_server.AsyncLogging.Lossless.{log-Inv}
use cc_server.AsyncLogging.Drained.{Round}
use cc_server.AsyncLogging.Session.{
  Session, said, turned, start, create, begin_thread, happen, turn_thread,
}
use cc_server.AsyncLogging.Session.Going.{start-Inv}
use cc_server.Logging.Output.{Statement, line_of}

-- The array of the stream has its size, the texts fit the type of their length and the number of the
-- line is one of 64 bits.
abbrev pub FitsLine : Statement → Type 0
FitsLine s =
    (length s.memory ≡ small_buffer)
    × IsPrintable (tid s.id s.text s.thread).1.tid_string s.time_text s.pieces s.file_name
    × (abs s.line < 2 ^ 64)

pub line_of_ok :
    (s : Statement)
    → FitsLine s
    → (written : List ℕ) × (line_of s ≡ ok written) × (length written ≤ small_buffer)
unfolding line_of
line_of_ok s (full, printable, fits) =
    let (written, number, shown, e, short, _, _, _) =
      log_line_lem s.memory s.id s.text s.time_text s.level s.file_name s.line s.pieces s.thread
        full printable fits in
    (written, rw e refl, short)

module _ (size : ℕ) (fresh : FixedBuffer) where
  -- A logger whose thread runs, and what was logged so far.
  pub record Runs (s : Session size fresh) (text : List ℕ) : Type 0 where
    pub inv : Inv size fresh s.system
    pub running : s.running ≡ true
    pub goes : s.ended ≡ false
    pub tests : s.waiting ≡ false
    pub logged : s.system.logged ≡ text

  pub start-Runs :
      (name : List ℕ)
      → Valid size fresh fresh
      → fresh.cur ≡ 0
      → 1 < length name
      → (s : Session size fresh) × (start size fresh name ≡ ok s) × Runs s []
  unfolding start create begin_thread
  start-Runs name fv fc named =
      let (s, e, v, on) = start-Inv size fresh name fv fc named in
      (
        s,
        e,
        record {
          inv = v;
          running = ground (arith, e);
          goes = on.ended;
          tests = ground (arith, e);
          logged = ground (arith, e);
        },
      )

  pub said-Runs :
      (s : Session size fresh) (text line : List ℕ)
      → Valid size fresh fresh
      → fresh.cur ≡ 0
      → size < 2 ^ 31
      → length line < size
      → Runs s text
      → (t : Session size fresh) × (happen size fresh s (said line) ≡ ok t) × Runs t (text ++ line)
  unfolding happen step
  said-Runs s text line fv fc small short r =
      let (t, e, w, _, _, _) = log-Inv size fresh s.system line fv fc short small r.inv in
      (
        record s { system = t },
        ground (arith, e),
        record {
          inv = w;
          running = r.running;
          goes = r.goes;
          tests = r.tests;
          logged = ground (arith, e, r.logged);
        },
      )

  pub Round-Runs :
      (s : Session size fresh) (text : List ℕ) (t : System size fresh)
      → Round size fresh s.system t
      → Runs s text
      → (happen size fresh s turned ≡ ok (record s { system = t }))
        × Runs (record s { system = t }) text
  unfolding happen turn_thread
  Round-Runs s text t r runs = (
    ground (arith, r.step, runs.running, runs.goes, runs.tests),
    record {
      inv = r.inv;
      running = runs.running;
      goes = runs.goes;
      tests = runs.tests;
      logged = r.logged ∙ runs.logged;
    },
  )
