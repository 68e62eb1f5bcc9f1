-- ===== src/LogFile.antt =====
-- base/FileUtil.cpp and base/LogFile.cpp: appending to a file, and flushing it now and then. How
-- many bytes fwrite(3) takes of so many, at each call, is an argument.
pub mod Append
pub mod Whole
use cc_server.Prelude.{
  ℕ, zero, suc, ◌+◌, Bool, List, [], ◌∷◌, ◌++◌, Option, none, some, leb, ◌==◌, if◌then◌else◌,
  length, take, drop,
}
use mathlib.Core.Option

-- What fwrite(3) took, how much of it was flushed, and how often fwrite(3) was called.
pub record AppendFile : Type 0 where
  pub written : List ℕ
  pub flushed : List ℕ
  pub calls : ℕ

unfoldable pub flush : AppendFile → AppendFile
flush f = record f { flushed = f.written }

pub record LogFile : Type 0 where
  pub file : AppendFile
  pub flush_every : ℕ
  pub count : ℕ

module _ (takes : ℕ → ℕ → ℕ) where
  -- `AppendFile::write`: the file after the call, and the answer.
  unfoldable pub write : AppendFile → List ℕ → AppendFile × ℕ
  write f line =
      let n = takes f.calls (length line) in
      (record f { written = f.written ++ take n line; calls = f.calls + 1 }, n)

  -- The `while` of `AppendFile::append`, with fuel, on the bytes that remain.
  unfoldable pub append_rest : ℕ → AppendFile → List ℕ → Option AppendFile
  unfolding write
  append_rest zero f line = none
  append_rest (suc fuel) f line =
      let (f', n) = write f line in
      let rest = append_rest fuel f' (drop n line) in
      if length line == 0 then some f else if n == 0 then some f' else rest

  -- Each round takes a byte or is the last.
  unfoldable pub append : AppendFile → List ℕ → Option AppendFile
  append f line = let (f', n) = write f line in append_rest (suc (length line)) f' (drop n line)

  -- `LogFile::append` is this under the lock.
  unfoldable pub append_unlocked : LogFile → List ℕ → Option LogFile
  unfolding flush
  append_unlocked l line =
      Option.map
        (λ f.
          if leb l.flush_every (l.count + 1)
          then record l { file = flush f; count = 0 }
          else record l { file = f; count = l.count + 1 })
        (append l.file line)

  -- `AsyncLogging::threadFunc` hands one buffer after the other to the file.
  unfoldable pub append_all : LogFile → List (List ℕ) → Option LogFile
  unfolding append_unlocked
  append_all l [] = some l
  append_all l (buffer ∷ buffers) = elim (append_unlocked l buffer) [
    | none ↦ none
    | some l' ↦ append_all l' buffers
  ]
