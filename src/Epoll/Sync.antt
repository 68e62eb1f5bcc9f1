-- ===== src/Epoll/Sync.antt =====
-- The interest list of the kernel is what the channels ask for, over any sequence of changes
-- (Epoll.cpp: updateChannel, Channel.h: enableRead to diableAll).
use cc_server.Prelude.{
  ℕ, true, false, not, ◌≡◌, ◌≢◌, ◌⊎◌, inl, inr, refl, ap, ◌∙◌, Option, none, some, List, [], ◌∷◌,
  arith, if◌then◌else◌, Bool-cases, ◌&&◌, ℕ_discrete,
}
use cc_server.Prelude.Outcome.{Outcome, ok, aborts, ◌>>=◌}
use mathlib.Core.Path.{fun_ext}
use cc_server.Prelude.Map.{update}
use cc_server.Interest
use cc_server.Interest.{Interest}
use cc_server.Channel.{Events, Channel, Change, change_events, is_zero}
use cc_server.Epoll.{Ctl, EpollKernel, Poller, control, store, update_channel, change}

module _ (epoll : EpollKernel) where
  open epoll use {Kernel, registered, epoll_ctl}

  -- What a channel wants to have registered.
  abbrev pub wanted : Channel → Option Events
  wanted c = if c.polling then some c.events else none

  pub record InSync (p : Poller epoll) : Type 0 where
    pub own_fd : (j : ℕ) → (p.channels j).fd ≡ j
    pub listed : (j : ℕ) → registered p.kernel j ≡ wanted (p.channels j)
    pub polled : (j : ℕ) → (p.channels j).polling ≡ not (is_zero (p.channels j).events)
    pub no_errors : p.errors ≡ 0

  abbrev asked : Poller epoll → ℕ → Change → Events
  asked p fd ch = change_events ch (p.channels fd).events

  -- The channel after the change.
  abbrev changed : Poller epoll → ℕ → Change → Channel
  changed p fd ch = record (p.channels fd) {
    events = asked p fd ch;
    polling = not (is_zero (asked p fd ch));
  }

  -- What a change that goes through has done.
  pub record Changed (p : Poller epoll) (fd : ℕ) (ch : Change) (q : Poller epoll) : Type 0 where
    pub in_sync : InSync q
    pub here : (q.channels fd).events ≡ change_events ch (p.channels fd).events
    pub elsewhere : (j : ℕ) → fd ≢ j → q.channels j ≡ p.channels j
    pub max_events : q.max_events ≡ p.max_events

  -- One call of epoll_ctl that is answered by a new list.
  settled :
      (p : Poller epoll) (fd : ℕ) (op : Ctl) (c : Channel)
      → InSync p
      → c.fd ≡ fd
      → c.polling ≡ not (is_zero c.events)
      → (epoll_ctl p.kernel op c.fd c.events).1 ≡ true
      → ((j : ℕ)
          → registered (epoll_ctl p.kernel op c.fd c.events).0 j
            ≡ update (registered p.kernel) c.fd (wanted c) j)
      → InSync (store epoll (control epoll p op c) c)
  unfolding control
  settled p fd op c s e b done list = record {
    own_fd = λ j. ground (arith, s.own_fd j);
    listed = λ j. ground (arith, s.listed j, list j);
    polled = λ j. ground (arith, s.polled j);
    no_errors = ground (arith, s.no_errors);
  }

  -- A change that leaves the channel without events before it ever had one aborts.
  pub change-aborts :
      (p : Poller epoll) (fd : ℕ) (ch : Change)
      → (p.channels fd).polling ≡ false
      → is_zero (change_events ch (p.channels fd).events) ≡ true
      → change epoll p fd ch ≡ aborts
  unfolding change update_channel
  change-aborts p fd ch off empty = ground arith

  settled-Changed :
      (p : Poller epoll) (fd : ℕ) (op : Ctl) (ch : Change)
      → InSync p
      → (epoll_ctl p.kernel op (p.channels fd).fd (asked p fd ch)).1 ≡ true
      → ((j : ℕ)
          → registered (epoll_ctl p.kernel op (p.channels fd).fd (asked p fd ch)).0 j
            ≡ update (registered p.kernel) (p.channels fd).fd (wanted (changed p fd ch)) j)
      → Changed p fd ch (store epoll (control epoll p op (changed p fd ch)) (changed p fd ch))
  unfolding control
  settled-Changed p fd op ch s done list = record {
    in_sync = settled p fd op (changed p fd ch) s (s.own_fd fd) refl done list;
    here = ground (arith, s.own_fd fd);
    elsewhere = λ j ne. ground (arith, s.own_fd fd);
    max_events = refl;
  }

  -- Every other change goes through: epoll_ctl accepts the operation that `updateChannel` picks, so
  -- that nothing is logged, and the kernel's list is again what the channels ask for.
  pub change_ok :
      (p : Poller epoll) (fd : ℕ) (ch : Change)
      → InSync p
      → ((p.channels fd).polling ≡ true)
        ⊎ (is_zero (change_events ch (p.channels fd).events) ≡ false)
      → (q : Poller epoll) × (change epoll p fd ch ≡ ok q) × Changed p fd ch q
  unfolding change update_channel
  change_ok p fd ch s h = elim (Bool-cases (p.channels fd).polling) [
    | inl on ↦ elim (Bool-cases (is_zero (asked p fd ch))) [
      | inl empty ↦ (
        store epoll (control epoll p Ctl.delete (changed p fd ch)) (changed p fd ch),
        ground arith,
        settled-Changed p fd Ctl.delete ch s
            (epoll.delete_ok p.kernel (p.channels fd).fd (asked p fd ch) (p.channels fd).events
              (ground (arith, s.own_fd fd, s.listed fd)))
            (λ j. ground (
              arith,
              epoll.delete_registers p.kernel (p.channels fd).fd (asked p fd ch)
                  (p.channels fd).events (ground (arith, s.own_fd fd, s.listed fd)) j,
            )),
      )
      | inr some_left ↦ (
        store epoll (control epoll p Ctl.modify (changed p fd ch)) (changed p fd ch),
        ground arith,
        settled-Changed p fd Ctl.modify ch s
            (epoll.modify_ok p.kernel (p.channels fd).fd (asked p fd ch) (p.channels fd).events
              (ground (arith, s.own_fd fd, s.listed fd)))
            (λ j. ground (
              arith,
              epoll.modify_registers p.kernel (p.channels fd).fd (asked p fd ch)
                  (p.channels fd).events (ground (arith, s.own_fd fd, s.listed fd)) j,
            )),
      )
    ]
    | inr off ↦ (
      store epoll (control epoll p Ctl.add (changed p fd ch)) (changed p fd ch),
      ground arith,
      settled-Changed p fd Ctl.add ch s
          (epoll.add_ok p.kernel (p.channels fd).fd (asked p fd ch)
            (ground (arith, s.own_fd fd, s.listed fd)))
          (λ j. ground (
            arith,
            epoll.add_registers p.kernel (p.channels fd).fd (asked p fd ch)
                (ground (arith, s.own_fd fd, s.listed fd)) j,
          )),
    )
  ]

  pub changes : Poller epoll → List (ℕ × Change) → Outcome (Poller epoll)
  changes p [] = ok p
  changes p ((fd, ch) ∷ rest) = do q ← change epoll p fd ch; changes q rest

  -- The events that the channels ask for.
  abbrev pub wants : Poller epoll → Interest
  wants p j = (p.channels j).events

  change-wants :
      (p q : Poller epoll) (fd : ℕ) (ch : Change)
      → Changed p fd ch q
      → wants q ≡ update (wants p) fd (change_events ch (wants p fd))
  change-wants p q fd ch c = fun_ext λ j. elim (ℕ_discrete fd j) [
    | yes e ↦ rw (← e) (ground (arith, c.here))
    | no ne ↦ ground (arith, c.elsewhere j ne)
  ]

  -- Any sequence of changes does what `Interest` promises. Where it goes through, the kernel's list
  -- is what the channels ask for and epoll_ctl never failed; otherwise both abort.
  pub changes_refines :
      (p : Poller epoll) (l : List (ℕ × Change))
      → InSync p
      → ((q : Poller epoll) × (changes p l ≡ ok q)
          × InSync q
          × (Interest.changes (wants p) l ≡ ok (wants q)))
        ⊎ ((changes p l ≡ aborts) × (Interest.changes (wants p) l ≡ aborts))
  unfolding changes Interest.changes Interest.change
  changes_refines p [] s = inl (p, refl, s, refl)
  changes_refines p ((fd, ch) ∷ rest) s =
      elim (Bool-cases (not (p.channels fd).polling && is_zero (asked p fd ch))) [
        | inl stop ↦
            inr (ground (arith, change-aborts p fd ch, s.polled fd), ground (arith, s.polled fd))
        | inr go ↦
            let (q, e, c) = change_ok p fd ch s (ground arith) in
            let next = λ (w : Interest). Interest.changes w rest in
            let step : Interest.change (wants p) fd ch ≡ ok (wants q) =
              ground (arith, s.polled fd, change-wants p q fd ch c) in
            elim (changes_refines q rest c.in_sync) [
              | inl (r, e', s', spec) ↦
                  inl (r, ground (arith, e, e'), s', ap (λ o. o >>= next) step ∙ spec)
              | inr (e', spec) ↦ inr (ground (arith, e, e'), ap (λ o. o >>= next) step ∙ spec)
            ]
      ]
