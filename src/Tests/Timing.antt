-- ===== src/Tests/Timing.antt =====
-- Uses of the theorems on timers, the log file and the log's back end.
use cc_server.Prelude.{
  true, false, ℕ, zero, suc, ◌≤◌, ◌≡◌, refl, List, [], ◌∷◌, some, arith, min, replicate, inr,
}
use cc_server.Prelude.Outcome.{ok, undefined}
use cc_server.TimerQueue.{TimerQueue, create, cancel_timer, run_timer}
use cc_server.TimerQueue.Cancel.{self_cancel_undefined}
use cc_server.LogFile.{AppendFile, append}
use cc_server.LogFile.Append.{Appended, append-Appended}
use cc_server.FixedBuffer.{FixedBuffer}
use cc_server.AsyncLogging.{System, log, turn, Event, run}
use cc_server.AsyncLogging.Live.{Inv, idle}
use cc_server.AsyncLogging.Lossless.{run-Inv}
use cc_server.AsyncLogging.Session
use cc_server.AsyncLogging.Session.{said, turned, tested, Session, start, happens}
use cc_server.AsyncLogging.Session.Stop.{Leaves, Writes, session_lem}

-- Two timers, due at 5 and at 9.
abbrev queue : TimerQueue
queue = record { timers = (5, 100) ∷ (9, 50) ∷ []; heap = λ p. some (create 5 0); alarm = some 5 }

self_cancel_undefined_example : run_timer cancel_timer 6 100 queue ≡ undefined
unfolding create
self_cancel_undefined_example =
    self_cancel_undefined cancel_timer 6 100 queue (create 5 0) refl (omega arith) refl refl

-- Two bytes at a time, and none from the second call on.
abbrev slow : ℕ → ℕ → ℕ
slow zero n = min 2 n
slow (suc call) n = 0

slow_lem : (call n : ℕ) → slow call n ≤ n
slow_lem zero n = omega arith
slow_lem (suc call) n = omega arith

abbrev new_file : AppendFile
new_file = record { written = []; flushed = []; calls = 0 }

append-Appended_example :
    (f : AppendFile) × (append slow new_file (1 ∷ 2 ∷ 3 ∷ []) ≡ some f)
    × Appended slow new_file (1 ∷ 2 ∷ 3 ∷ []) f
append-Appended_example = append-Appended slow new_file (1 ∷ 2 ∷ 3 ∷ []) slow_lem

abbrev blank : FixedBuffer
blank = record { data_bytes = replicate 4 0; cur = 0 }

abbrev begun : System 4 blank
begun = record {
  logger = record { current = some blank; next = some blank; buffers = [] };
  writer = record {
    new_buffer1 = some blank;
    new_buffer2 = some blank;
    to_write = [];
    output = [];
  };
  logged = [];
  dropped = 0;
}

abbrev events : List Event
events = log (1 ∷ 2 ∷ 3 ∷ []) ∷ log (4 ∷ 5 ∷ []) ∷ turn ∷ log (6 ∷ []) ∷ turn ∷ []

run-Inv_example : (s : System 4 blank) × (run 4 blank begun events ≡ ok s) × Inv 4 blank s
run-Inv_example =
    run-Inv 4 blank begun events (refl, omega arith) refl (omega arith)
      (omega arith, (omega arith, (omega arith, tt)))
      (record {
        ready = record {
          buffer = blank;
          current = refl;
          valid = (refl, omega arith);
          next = inr (blank, refl, (refl, omega arith), refl);
          live = tt;
        };
        writer =
            idle (blank, refl, (refl, omega arith), refl) (blank, refl, (refl, omega arith), refl)
              refl;
        accounted = inr refl;
      })

-- The name of the log, and what happens before the last line.
abbrev name : List ℕ
name = 46 ∷ 47 ∷ []

abbrev session : List Session.Event
session = said (1 ∷ 2 ∷ []) ∷ turned ∷ turned ∷ tested ∷ []

session_lem_example :
    (s t : Session 4 blank) × (start 4 blank name ≡ ok s)
    × (happens 4 blank s session ≡ ok t)
    × (t.ended ≡ false)
    × (t.system.writer.to_write ≡ [] → t.waiting ≡ false → Leaves 4 blank t (3 ∷ []))
    × (t.system.writer.to_write ≡ [] → t.waiting ≡ true → Writes 4 blank t (3 ∷ []))
session_lem_example =
    session_lem 4 blank name session (3 ∷ []) (refl, omega arith) refl (omega arith) (omega arith)
      (omega arith, tt) (omega arith)
