-- ===== src/TimerQueue/Destroy.antt =====
-- The constructor and the destructor of a timer queue (TimerQueue.cpp).
use cc_server.Prelude.{ℕ, ◌≡◌, refl, true, false, List, [], ◌∷◌, Option, none, some, arith}
use cc_server.Prelude.Outcome.{Outcome, ok, ◌>>=◌}
use cc_server.Prelude.Map.{update}
use cc_server.Channel.{enable_read}
use cc_server.Epoll.{EpollKernel, Poller, change}
use cc_server.TimerQueue.{Entry, Timer, TimerQueue, deref}
use cc_server.TimerQueue.Order.{Sorted}
use cc_server.TimerQueue.Listed.{listed, AllLive, update-AllLive, first_once}
use cc_server.TimerQueue.Life.{Life}

abbrev pub no_timers : TimerQueue
no_timers = record { timers = []; heap = λ p. none; alarm = none }

-- The constructor, where timerfd_create(2) answers `timerfd`.
unfoldable pub make : (epoll : EpollKernel) → ℕ → Poller epoll → Outcome (TimerQueue × Poller epoll)
make epoll timerfd p = do p' ← change epoll p timerfd enable_read; ok (no_timers, p')

pub no_timers-Life : Life no_timers []
no_timers-Life = record {
  sorted = tt;
  live = tt;
  due_live = tt;
  once = tt;
  apart = λ p h. cc;
  owned = λ p t h. cc;
}

-- The loop of the destructor: `delete` of a timer that is gone is undefined.
unfoldable pub delete_timers : List Entry → (ℕ → Option Timer) → Outcome (ℕ → Option Timer)
delete_timers [] heap = ok heap
delete_timers (e ∷ entries) heap = do
  t ← deref (heap e.1)
  delete_timers entries (update heap e.1 none)

-- The destructor: the timers that are left, and the descriptor that is closed.
unfoldable pub unmake : ℕ → TimerQueue → Outcome ((ℕ → Option Timer) × ℕ)
unfolding delete_timers
unmake timerfd q = do heap ← delete_timers q.timers q.heap; ok (heap, timerfd)

nothing_there :
    (found : Option Timer) → ((t : Timer) → found ≡ some t → false ≡ true) → found ≡ none
nothing_there none h = refl
nothing_there (some t) h = let impossible = h t refl in cc

delete_timers_lem :
    (l : List Entry) (heap : ℕ → Option Timer)
    → Sorted l
    → AllLive heap l
    → ((p : ℕ) (t : Timer) → heap p ≡ some t → listed p l ≡ true)
    → (heap' : ℕ → Option Timer) × (delete_timers l heap ≡ ok heap') × ((p : ℕ) → heap' p ≡ none)
unfolding delete_timers
delete_timers_lem [] heap s v owned = (heap, refl, λ p. nothing_there (heap p) (owned p))
delete_timers_lem (e ∷ l) heap (after, s) ((t, there, at, active), v) owned =
    let alone = first_once heap e l (t, there, at, active) after v in
    let (heap', done, gone) =
      delete_timers_lem l (update heap e.1 none) s (update-AllLive heap e.1 none l alone v)
        (λ p u h. ground (arith, h, owned p u)) in
    (heap', ground (arith, there, done), gone)

-- The destructor of a timer queue deletes each timer that lives once, and leaves none, and closes the
-- timerfd.
pub unmake_lem :
    (timerfd : ℕ) (q : TimerQueue)
    → Life q []
    → (heap : ℕ → Option Timer) × (unmake timerfd q ≡ ok (heap, timerfd))
      × ((p : ℕ) → heap p ≡ none)
unfolding unmake
unmake_lem timerfd q v =
    let (heap, e, gone) =
      delete_timers_lem q.timers q.heap v.sorted v.live (λ p t h. ground (arith, v.owned p t h)) in
    (heap, ground (arith, e), gone)
