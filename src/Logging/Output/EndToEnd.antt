-- ===== src/Logging/Output/EndToEnd.antt =====
-- The program's lines, from the statements to the file (base/Logging.cpp, base/AsyncLogging.cpp).
use cc_server.Prelude.{concat, ℕ, ◌<◌, ◌≡◌, ◌⊎◌, List, [], ◌∷◌, ◌++◌, Option, none, some, length}
use cc_server.FixedBuffer.{FixedBuffer}
use cc_server.LogFile.{LogFile, append_all}
use cc_server.AsyncLogging.Session.{Session}
use cc_server.Logging.Output.{Happening, logs, renames, goes_on, BackEnd, output}
use cc_server.Logging.Output.Runs.{FitsLine, Runs}

-- A name of the file has two characters.
abbrev pub AllFit : List Happening → Type 0
AllFit [] = Unit {0}
AllFit (logs s ∷ hs) = FitsLine s × AllFit hs
AllFit (renames name ∷ hs) = (1 < length name) × AllFit hs
AllFit (goes_on ∷ hs) = AllFit hs

module _ (size : ℕ) (fresh : FixedBuffer) where
  -- The lines so far are with the logger, which was started once, or there were none.
  abbrev Accounts : Option (Session size fresh) → ℕ → List ℕ → Type 0
  Accounts none starts text = (text ≡ []) × (starts ≡ 0)
  Accounts (some s) starts text = Runs size fresh s text × (starts ≡ 1)

  record Sound (b : BackEnd size fresh) (text : List ℕ) : Type 0 where
    named : 1 < length b.log_file_name
    logger : Accounts b.logger b.starts text

  -- The log file was handed the lines, and holds them behind what it held, unless buffers were thrown
  -- away; the logger was started once, or there was no line.
  abbrev pub Delivered : (ℕ → ℕ → ℕ) → LogFile → Option (Session size fresh) → ℕ → List ℕ → Type 0
  Delivered takes file none starts text = (text ≡ []) × (starts ≡ 0)
  Delivered takes file (some s) starts text =
      (starts ≡ 1)
      × ((0 < s.system.dropped)
          ⊎ ((s.system.writer.output ≡ text)
              × ((buffers : List (List ℕ))
                  → concat buffers ≡ s.system.writer.output
                  → (file' : LogFile) × (append_all takes file buffers ≡ some file')
                    × (file'.file.written ≡ file.file.written ++ text))))
