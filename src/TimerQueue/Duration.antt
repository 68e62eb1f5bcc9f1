-- ===== src/TimerQueue/Duration.antt =====
-- How long the timerfd is set to wait (TimerQueue.cpp: durationFromNow, timerfdSet). Times are
-- nanoseconds. Timestamps are of the system's clock and the timerfd goes by the monotonic one: the
-- two are arguments of their own, `now` and `uptime`, and nothing is assumed of one by the other.
use Prim.Native.Nat.{max}
use cc_server.Prelude.{
  Bool, true, suc, ap, ◌∙◌, dec_lt, ℕ, ◌+◌, ◌-◌, ◌*◌, ◌/◌, ◌%◌, ◌<◌, ◌≤◌, ◌≡◌, Option, some, arith,
  if◌then◌else◌,
}
use cc_server.Prelude.Int.{ℤ, pos, diff, neg, less, quotient, remainder}
use cc_server.TimerQueue.{Timer, expired}

-- `struct timespec`
pub record Timespec : Type 0 where
  pub tv_sec : ℤ
  pub tv_nsec : ℤ

-- `std::nano::den`
abbrev pub nano_den : ℕ
nano_den = 1000000000

-- `1ms`
abbrev pub millisecond : ℕ
millisecond = 1000000

unfoldable pub duration_from_now : ℕ → ℕ → Timespec
duration_from_now now due =
    let ns = diff due now in
    let ns' = if less ns (pos millisecond) then pos millisecond else ns in
    record { tv_sec = quotient ns' nano_den; tv_nsec = remainder ns' nano_den }

-- timerfd_settime(2) for a relative time that is not repeated. `expires` is when the timer becomes
-- readable, by the monotonic clock; a time of at least a nanosecond, with less than a second of nanoseconds, is accepted and
-- counted from the call.
pub record TimerFd : Type 1 where
  pub State : Type 0
  pub expires : State → Option ℕ
  pub settime : ℕ → Timespec → State → State × Bool
  pub settime_ok :
      (uptime : ℕ) (t : Timespec) (s : State) (sec nsec : ℕ)
      → t.tv_sec ≡ pos sec
      → t.tv_nsec ≡ pos nsec
      → nsec < nano_den
      → 0 < sec + nsec
      → (settime uptime t s).1 ≡ true
  pub settime-expires :
      (uptime : ℕ) (t : Timespec) (s : State) (sec nsec : ℕ)
      → t.tv_sec ≡ pos sec
      → t.tv_nsec ≡ pos nsec
      → nsec < nano_den
      → 0 < sec + nsec
      → expires (settime uptime t s).0 ≡ some (uptime + (sec * nano_den + nsec))

clamped :
    (now due : ℕ)
    → (if less (diff due now) (pos millisecond) then pos millisecond else diff due now)
      ≡ pos (max (due - now) millisecond)
clamped now due = elim (dec_lt due now) [
  | yes past ↦
      let gone : diff due now ≡ neg (suc (now - due - 1)) =
        ground arith ∙ ap neg {x = now - due} {y = suc (now - due - 1)} (omega arith) in
      rw gone (ap pos (omega arith))
  | no to_come ↦
      let left : diff due now ≡ pos (due - now) = ground arith in
      elim (dec_lt (due - now) millisecond) [
        | yes short ↦ ground (arith, left)
        | no long ↦ ground (arith, left)
      ]
]

-- The wait, as seconds and nanoseconds: the time that is left, and a millisecond at least.
duration_from_now_lem :
    (now due : ℕ)
    → let wait = max (due - now) millisecond in
      ((duration_from_now now due).tv_sec ≡ pos (wait / nano_den))
      × ((duration_from_now now due).tv_nsec ≡ pos (wait % nano_den))
unfolding duration_from_now
duration_from_now_lem now due =
    let e = clamped now due in (ap (λ v. quotient v nano_den) e, ap (λ v. remainder v nano_den) e)

module _ (timerfd : TimerFd) where
  -- `errors` is how often an error was logged.
  pub record Alarm : Type 0 where
    pub state : timerfd.State
    pub errors : ℕ

  unfoldable pub timerfd_set : ℕ → ℕ → ℕ → Alarm → Alarm
  timerfd_set uptime now due a =
      let (s, done) = timerfd.settime uptime (duration_from_now now due) a.state in
      record { state = s; errors = (if done then a.errors else a.errors + 1) }

  -- timerfdSet never gives timerfd_settime(2) a time that it refuses or that stops the timer, whether
  -- the time given is past or to come: by the monotonic clock, the timerfd becomes readable when as
  -- long has gone by as the system's clock lacked of that time at the call, and a millisecond at
  -- least. If the system's clock has then gone on as long or longer, a timer that was due at that time
  -- has expired for handleRead.
  pub timerfd_set_lem :
      (uptime now later due : ℕ) (a : Alarm) (t : Timer)
      → t.deadline ≡ due
      → now + max (due - now) millisecond ≤ later
      → (timerfd.expires (timerfd_set uptime now due a).state
          ≡ some (uptime + max (due - now) millisecond))
        × ((timerfd_set uptime now due a).errors ≡ a.errors)
        × (expired t later ≡ true)
  unfolding timerfd_set expired
  timerfd_set_lem uptime now later due a t e gone_by =
      let wait = max (due - now) millisecond in
      let d = duration_from_now now due in
      let (sec, nsec) = duration_from_now_lem now due in
      let some_time : 0 < wait / nano_den + wait % nano_den = omega arith in
      let small : wait % nano_den < nano_den = omega arith in
      (
        timerfd.settime-expires uptime d a.state (wait / nano_den) (wait % nano_den) sec nsec small
              some_time
            ∙ ap some (omega arith),
        ground (
          arith,
          timerfd.settime_ok uptime d a.state (wait / nano_den) (wait % nano_den) sec nsec small
              some_time,
        ),
        ground (arith, e, gone_by),
      )
