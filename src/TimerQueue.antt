-- ===== src/TimerQueue.antt =====
-- Timer.h, TimerQueue.h and TimerQueue.cpp: timers ordered by the time at which they are due. Times
-- and pointers are numbers, `heap` holds the timers that were not deleted, and `alarm` is the time
-- that timerfd_settime(2) was last called with.
pub mod Order
pub mod Listed
pub mod Life
pub mod Rounds
pub mod Cancel
pub mod Duration
pub mod Destroy
use cc_server.Prelude.{
  ℕ, ◌+◌, Bool, true, false, not, ◌&&◌, ◌||◌, List, [], ◌∷◌, Option, none, some, ltb, leb, ◌==◌,
  if◌then◌else◌,
}
use cc_server.Prelude.Outcome.{Outcome, ok, undefined, assert, ◌>>=◌, ◌>>◌}
use cc_server.Prelude.Map.{update}

pub record Timer : Type 0 where
  pub deadline : ℕ
  pub interval : ℕ
  pub repeats : Bool
  pub is_canceled : Bool

unfoldable pub create : ℕ → ℕ → Timer
create deadline interval = record {
  deadline = deadline;
  interval = interval;
  repeats = ltb 0 interval;
  is_canceled = false;
}

unfoldable pub expired : Timer → ℕ → Bool
expired t now = leb t.deadline now

unfoldable pub restart : Timer → Outcome Timer
restart t = do assert t.repeats; ok (record t { deadline = t.deadline + t.interval })

unfoldable pub cancel : Timer → Outcome Timer
cancel t = do assert (not t.is_canceled); ok (record t { is_canceled = true })

-- `std::pair<Timestamp, Timer*>` and its `<`.
abbrev pub Entry : Type 0
Entry = ℕ × ℕ

abbrev pub before : Entry → Entry → Bool
before x y = ltb x.0 y.0 || (x.0 == y.0 && ltb x.1 y.1)

-- `std::set::insert`: the entries after it, and whether the entry is new.
unfoldable pub insert : Entry → List Entry → List Entry × Bool
insert e [] = (e ∷ [], true)
insert e (x ∷ xs) =
    let (rest, is_new) = insert e xs in
    if before e x
    then (e ∷ x ∷ xs, true)
    else if before x e
    then (x ∷ rest, is_new)
    else (x ∷ xs, false)

unfoldable pub erase : Entry → List Entry → List Entry
erase e [] = []
erase e (x ∷ xs) = let rest = erase e xs in if x.0 == e.0 && x.1 == e.1 then xs else x ∷ rest

-- The entries up to `std::set::lower_bound`, and those from there on.
unfoldable pub split_at : Entry → List Entry → List Entry × List Entry
split_at e [] = ([], [])
split_at e (x ∷ xs) =
    let (low, high) = split_at e xs in if before x e then (x ∷ low, high) else ([], x ∷ xs)

pub record TimerQueue : Type 0 where
  pub timers : List Entry
  pub heap : ℕ → Option Timer
  pub alarm : Option ℕ

abbrev pub deref : Option Timer → Outcome Timer
deref none = undefined
deref (some t) = ok t

-- `timers_.begin() == ret.first`, where the entry of the iterator is given.
abbrev pub is_first : Entry → List Entry → Bool
is_first e [] = false
is_first e (x ∷ xs) = x.0 == e.0 && x.1 == e.1

-- The task of `addTimer`: `pointer` is what `new Timer` answered.
unfoldable pub add_timer : ℕ → ℕ → TimerQueue → Outcome TimerQueue
unfolding insert
add_timer pointer deadline q = do
  let (timers, is_new) = insert (deadline, pointer) q.timers
  assert is_new
  ok (record q {
    timers = timers;
    alarm = (if is_first (deadline, pointer) timers then some deadline else q.alarm);
  })

-- `addTimer` in the loop's thread: `new Timer` answers `pointer`, and the task runs at once.
unfoldable pub schedule : ℕ → ℕ → ℕ → TimerQueue → Outcome TimerQueue
unfolding add_timer create
schedule pointer deadline interval q =
    add_timer pointer deadline
      (record q { heap = update q.heap pointer (some (create deadline interval)) })

-- The task of `cancelTimer`.
unfoldable pub cancel_timer : ℕ → TimerQueue → Outcome TimerQueue
unfolding cancel erase
cancel_timer pointer q = do
  t ← deref (q.heap pointer)
  t' ← cancel t
  ok (record q {
    timers = erase (t'.deadline, pointer) q.timers;
    heap = update q.heap pointer none;
  })

unfoldable pub get_expired : ℕ → TimerQueue → List Entry × TimerQueue
unfolding split_at
get_expired now q =
    let (due, left) = split_at (now + 1, 0) q.timers in (due, record q { timers = left })

-- What `handleRead` does with a timer once its callback ran, if that did not delete it.
unfoldable pub settle : ℕ → TimerQueue → Outcome TimerQueue
unfolding restart insert
settle pointer q = do
  t ← deref (q.heap pointer)
  if not t.is_canceled && t.repeats
      then (do
        t' ← restart t
        ok (record q {
          timers = (insert (t'.deadline, pointer) q.timers).0;
          heap = update q.heap pointer (some t');
        }))
      else ok (record q { heap = update q.heap pointer none })

-- `run` is the callback of a timer, which may add and cancel timers.
module _ (run : ℕ → TimerQueue → Outcome TimerQueue) where
  unfoldable pub run_timer : ℕ → ℕ → TimerQueue → Outcome TimerQueue
  unfolding expired settle
  run_timer now pointer q = do
    t ← deref (q.heap pointer)
    assert (expired t now)
    q' ← (if not t.is_canceled then run pointer q else ok q)
    settle pointer q'

  unfoldable pub run_timers : ℕ → List Entry → TimerQueue → Outcome TimerQueue
  run_timers now [] q = ok q
  run_timers now (e ∷ due) q = do q' ← run_timer now e.1 q; run_timers now due q'

  -- The time that timerfd_settime(2) is called with.
  abbrev pub next_alarm : List Entry → Option ℕ → Option ℕ
  next_alarm [] alarm = alarm
  next_alarm (e ∷ rest) alarm = some e.0

  unfoldable pub handle_read : ℕ → TimerQueue → Outcome TimerQueue
  unfolding get_expired
  handle_read now q = do
    let (due, left) = get_expired now q
    q' ← run_timers now due left
    ok (record q' { alarm = next_alarm q'.timers q'.alarm })
