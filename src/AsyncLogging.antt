-- ===== src/AsyncLogging.antt =====
-- base/AsyncLogging.h and base/AsyncLogging.cpp: threads append lines to buffers in memory, and one
-- thread writes full buffers to the file. What is written stands in `output`.
pub mod Live
pub mod Exchange
pub mod Write
pub mod Lossless
pub mod Drained
pub mod Session
use cc_server.Prelude.{
  ℕ, ◌+◌, ◌-◌, Bool, true, false, List, [], ◌∷◌, ◌++◌, Option, none, some, ltb, ◌==◌, if◌then◌else◌,
  length, take, get_or,
}
use cc_server.Prelude.Outcome.{Outcome, ok, undefined, assert, ◌>>=◌, ◌>>◌}
use cc_server.FixedBuffer
use cc_server.FixedBuffer.{FixedBuffer, avail, filled, reset, contents}

-- A `unique_ptr` is `none` once it was moved from.
abbrev pub BufferPtr : Type 0
BufferPtr = Option FixedBuffer

-- What the mutex guards.
pub record Logger : Type 0 where
  pub current : BufferPtr
  pub next : BufferPtr
  pub buffers : List BufferPtr

-- The variables of `threadFunc`.
pub record Writer : Type 0 where
  pub new_buffer1 : BufferPtr
  pub new_buffer2 : BufferPtr
  pub to_write : List BufferPtr
  pub output : List ℕ

abbrev pub deref : BufferPtr → Outcome FixedBuffer
deref none = undefined
deref (some b) = ok b

abbrev pub is_null : BufferPtr → Bool
is_null none = true
is_null (some b) = false

-- `vector::back` and `vector::pop_back`
abbrev pub back : List BufferPtr → BufferPtr
back l = get_or l (length l - 1) none

abbrev pub pop_back : List BufferPtr → List BufferPtr
pop_back l = take (length l - 1) l

-- Some thread logs a line, or the writing thread goes on to or past its critical section.
pub data Event : Type 0 where
  log : List ℕ → Event
  turn : Event

-- `fresh` is what `new Buffer` makes.
module _ (size : ℕ) (fresh : FixedBuffer) where
  -- The buffer that is current next.
  abbrev pub spare : BufferPtr → FixedBuffer
  spare none = fresh
  spare (some b) = b

  unfoldable pub append : Logger → List ℕ → Outcome Logger
  append l line = do
    c ← deref l.current
    if ltb (length line) (avail size c)
        then (do c' ← FixedBuffer.append size c line; ok (record l { current = some c' }))
        else (do
          c' ← FixedBuffer.append size (spare l.next) line
          ok (record { current = some c'; next = none; buffers = l.buffers ++ (some c ∷ []) }))

  -- `new_buffer && new_buffer->length() == 0`
  abbrev pub is_clear : BufferPtr → Bool
  is_clear none = false
  is_clear (some b) = filled size b == 0

  -- One round of `threadFunc` up to the write: its assertions and what happens under the lock.
  unfoldable pub exchange : Logger → Writer → Outcome (Logger × Writer)
  unfolding filled
  exchange l w = do
    assert (is_clear w.new_buffer1)
    assert (is_clear w.new_buffer2)
    assert (length w.to_write == 0)
    let l' : Logger = record {
      current = w.new_buffer1;
      next = (if is_null l.next then w.new_buffer2 else l.next);
      buffers = [];
    }
    let w' : Writer = record w {
      new_buffer1 = none;
      new_buffer2 = (if is_null l.next then none else w.new_buffer2);
      to_write = l.buffers ++ (l.current ∷ []);
    }
    assert (ltb 0 (length w'.to_write))
    ok (l', w')

  -- The bytes of the buffers, in order.
  abbrev pub bytes_of : List BufferPtr → Outcome (List ℕ)
  bytes_of [] = ok []
  bytes_of (p ∷ rest) = do b ← deref p; more ← bytes_of rest; ok (contents b ++ more)

  -- Of more than 25 buffers all but the first two are thrown away. `output` is what is handed to
  -- `LogFile::append`; LogFile has what becomes of it there.
  unfoldable pub write_out : Writer → Outcome Writer
  write_out w = do
    let kept = if ltb 25 (length w.to_write) then take 2 w.to_write else w.to_write
    bytes ← bytes_of kept
    ok (record w {
      output = w.output ++ bytes;
      to_write = (if ltb 2 (length kept) then take 2 kept else kept);
    })

  -- A buffer pointer that is null takes over the last buffer written: the pointer, and the buffers
  -- that are left.
  unfoldable pub take_over : BufferPtr → List BufferPtr → Outcome (BufferPtr × List BufferPtr)
  unfolding reset
  take_over (some b) left = ok (some b, left)
  take_over none left = do
    assert (ltb 0 (length left))
    b ← deref (back left)
    ok (some (reset size b), pop_back left)

  -- The end of the round.
  unfoldable pub recycle : Writer → Outcome Writer
  unfolding take_over
  recycle w = do
    (p₁, left₁) ← take_over w.new_buffer1 w.to_write
    (p₂, left₂) ← take_over w.new_buffer2 left₁
    ok (record w { new_buffer1 = p₁; new_buffer2 = p₂; to_write = [] })

  -- The logger and its thread, what was logged, and how many buffers were thrown away.
  pub record System : Type 0 where
    pub logger : Logger
    pub writer : Writer
    pub logged : List ℕ
    pub dropped : ℕ

  unfoldable pub step : System → Event → Outcome System
  step s (log line) = do
    l ← append s.logger line
    ok (record s { logger = l; logged = s.logged ++ line })
  step s turn =
      if length s.writer.to_write == 0
      then (do (l, w) ← exchange s.logger s.writer; ok (record s { logger = l; writer = w }))
      else (do
        w ← write_out s.writer
        w' ← recycle w
        let n = length s.writer.to_write
        ok (record s {
          writer = w';
          dropped = (if ltb 25 n then s.dropped + (n - 2) else s.dropped);
        }))

  unfoldable pub run : System → List Event → Outcome System
  run s [] = ok s
  run s (e ∷ es) = do t ← step s e; run t es
