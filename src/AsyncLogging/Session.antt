-- ===== src/AsyncLogging/Session.antt =====
-- The logging thread from its start to its end (base/AsyncLogging.h and base/AsyncLogging.cpp).
pub mod Going
pub mod Stop
use cc_server.Prelude.{
  ℕ, Bool, true, false, List, [], ◌∷◌, some, ltb, not, ◌&&◌, ◌||◌, ◌==◌, if◌then◌else◌, length,
}
use cc_server.Prelude.Outcome.{Outcome, ok, assert, ◌>>=◌, ◌>>◌}
use cc_server.FixedBuffer.{FixedBuffer, bzero}
use cc_server.AsyncLogging.{Logger, Writer, System, log, turn, step}

-- A line is logged, `stop` is called, or the thread goes on to or past its critical section, or only
-- to the wait in front of it.
pub data Event : Type 0 where
  said : List ℕ → Event
  stopped turned tested : Event

-- `fresh` is what `new Buffer` makes.
module _ (size : ℕ) (fresh : FixedBuffer) where
  -- The constructor.
  unfoldable pub create : List ℕ → Outcome Logger
  create basename = do
    assert (ltb 1 (length basename))
    ok (record { current = some (bzero size fresh); next = some (bzero size fresh); buffers = [] })

  -- `threadFunc` up to its loop.
  unfoldable pub begin_thread : Bool → Outcome Writer
  begin_thread running = do
    assert running
    ok (record {
      new_buffer1 = some (bzero size fresh);
      new_buffer2 = some (bzero size fresh);
      to_write = [];
      output = [];
    })

  -- `waiting` is whether the thread is past the test of `running_` and before its critical section,
  -- where it waits for `cond_`; `ended` whether it left its loop; `joined` whether it is joined or
  -- about to be.
  pub record Session : Type 0 where
    pub system : System size fresh
    pub running : Bool
    pub waiting : Bool
    pub ended : Bool
    pub joined : Bool

  -- The constructor and `start`.
  unfoldable pub start : List ℕ → Outcome Session
  unfolding create begin_thread
  start basename = do
    l ← create basename
    w ← begin_thread true
    ok (record {
      system = record { logger = l; writer = w; logged = []; dropped = 0 };
      running = true;
      waiting = false;
      ended = false;
      joined = false;
    })

  -- The thread tests `running_` at the head of its loop, and is then before its critical section.
  unfoldable pub test_running : Session → Session
  test_running s =
      if not s.ended && not s.waiting && length s.system.writer.to_write == 0
      then if s.running then record s { waiting = true } else record s { ended = true }
      else s

  -- It goes on to or past its critical section, after the test where that is still to come.
  unfoldable pub turn_thread : Session → Outcome Session
  turn_thread s =
      if s.ended
      then ok s
      else if length s.system.writer.to_write == 0
      then if s.waiting || s.running
        then (do t ← step size fresh s.system turn; ok (record s { system = t; waiting = false }))
        else ok (record s { ended = true })
      else (do t ← step size fresh s.system turn; ok (record s { system = t }))

  -- `stop`, up to the wait of `Thread::join`, which asserts that it is the first.
  unfoldable pub stop : Session → Outcome Session
  stop s = do assert (not s.joined); ok (record s { running = false; joined = true })

  unfoldable pub happen : Session → Event → Outcome Session
  unfolding turn_thread test_running stop
  happen s (said line) = do t ← step size fresh s.system (log line); ok (record s { system = t })
  happen s stopped = stop s
  happen s turned = turn_thread s
  happen s tested = ok (test_running s)

  unfoldable pub happens : Session → List Event → Outcome Session
  unfolding happen
  happens s [] = ok s
  happens s (e ∷ es) = do t ← happen s e; happens t es
