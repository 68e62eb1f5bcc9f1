-- ===== src/Epoll/Poll.antt =====
-- Epoll.cpp: `poll`. What epoll_wait answers is an argument.
use cc_server.Prelude.{
  ℕ, suc, ◌*◌, Bool, ◌≡◌, refl, ap, ◌∙◌, ◌==◌, List, [], ◌∷◌, arith, if◌then◌else◌, length, map,
  ℕ_discrete,
}
use cc_server.Prelude.Map.{update}
use cc_server.Channel.{Events, Channel, set_revents}
use cc_server.Epoll.{EpollKernel, Poller}
use cc_server.Epoll.Sync.{InSync}

-- An error, with whether it is EINTR, or the descriptors that are ready and their events.
pub data Answer : Type 0 where
  failed : Bool → Answer
  ready : List (ℕ × Events) → Answer

module _ (epoll : EpollKernel) where
  -- One round of the loop for each entry: `setRevents` on the channel, which becomes active.
  unfoldable pub mark : (ℕ → Channel) → List (ℕ × Events) → ℕ → Channel
  mark channels [] = channels
  mark channels ((fd, e) ∷ rest) = mark (update channels fd (set_revents (channels fd) e)) rest

  -- The poller and the active channels after `poll`.
  unfoldable pub poll : Poller epoll → Answer → Poller epoll × List ℕ
  poll p (failed interrupted) =
      (record p { errors = (if interrupted then p.errors else suc p.errors) }, [])
  poll p (ready entries) = (
    record p {
      channels = mark p.channels entries;
      max_events = (if length entries == p.max_events then 2 * p.max_events else p.max_events);
    },
    map (λ x. x.0) entries,
  )

  -- What `mark` leaves alone.
  pub record SameRequests (c c' : Channel) : Type 0 where
    pub fd : c'.fd ≡ c.fd
    pub events : c'.events ≡ c.events
    pub polling : c'.polling ≡ c.polling

  one-SameRequests :
      (channels : ℕ → Channel) (fd : ℕ) (e : Events) (j : ℕ)
      → SameRequests (channels j) (update channels fd (set_revents (channels fd) e) j)
  unfolding set_revents
  one-SameRequests channels fd e j = elim (ℕ_discrete fd j) [
    | yes same ↦
        rw same (record { fd = ground arith; events = ground arith; polling = ground arith })
    | no ne ↦ record { fd = ground arith; events = ground arith; polling = ground arith }
  ]

  pub mark-SameRequests :
      (channels : ℕ → Channel) (l : List (ℕ × Events)) (j : ℕ)
      → SameRequests (channels j) (mark channels l j)
  unfolding mark
  mark-SameRequests channels [] j = record { fd = refl; events = refl; polling = refl }
  mark-SameRequests channels ((fd, e) ∷ rest) j =
      let one = one-SameRequests channels fd e j in
      let more = mark-SameRequests (update channels fd (set_revents (channels fd) e)) rest j in
      record {
        fd = more.fd ∙ one.fd;
        events = more.events ∙ one.events;
        polling = more.polling ∙ one.polling;
      }

  -- A `poll` that epoll_wait answers with descriptors does not change what the channels ask for, so
  -- the kernel's list stays theirs.
  pub poll-InSync :
      (p : Poller epoll) (l : List (ℕ × Events))
      → InSync epoll p
      → InSync epoll (poll p (ready l)).0
  unfolding poll
  poll-InSync p l s = record {
    own_fd = λ j. ground (arith, s.own_fd j, mark-SameRequests p.channels l j);
    listed = λ j. ground (arith, s.listed j, mark-SameRequests p.channels l j);
    polled = λ j. ground (arith, s.polled j, mark-SameRequests p.channels l j);
    no_errors = s.no_errors;
  }

  -- The events that were reported last for a descriptor, if any were.
  abbrev pub reported : List (ℕ × Events) → ℕ → Events → Events
  reported [] j e = e
  reported ((fd, e') ∷ rest) j e = reported rest j (if fd == j then e' else e)

  -- After `poll` the `revents_` of each channel reported are the events reported for it last, and the
  -- other channels keep theirs.
  pub poll_reports :
      (p : Poller epoll) (l : List (ℕ × Events)) (j : ℕ)
      → ((poll p (ready l)).0.channels j).revents ≡ reported l j (p.channels j).revents
  unfolding poll mark set_revents
  poll_reports p [] j = refl
  poll_reports p ((fd, e) ∷ rest) j =
      poll_reports (record p { channels = update p.channels fd (set_revents (p.channels fd) e) })
        rest j
      ∙ ap (reported rest j) (ground arith)
