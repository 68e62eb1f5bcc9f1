-- ===== src/TcpServerSingle/Round.antt =====
-- One round of the loop of a server: `poll`, and the handlers of the channels that it made active
-- (EventLoop.cpp: loop; Epoll.cpp: poll; TcpServerSingle.cpp).
use cc_server.Prelude.{
  ℕ, ◌≤◌, ◌≡◌, ◌≢◌, refl, ap, sym, ◌∙◌, ◌⊎◌, inl, inr, true, false, ◌&&◌, ◌+◌, List, [], ◌∷◌, map,
  arith, length,
}
use cc_server.Prelude.Outcome.{Outcome, ok}
use cc_server.Channel.{Events}
use cc_server.Epoll.{EpollKernel}
use cc_server.Epoll.Poll.{poll, ready, mark, mark-SameRequests, poll-InSync, poll_reports}
use cc_server.Epoll.Poll
use cc_server.EventLoop.{EventFd}
use cc_server.TcpConnection.{channel}
use cc_server.TcpServerSingle.Members.{Inv}
use cc_server.TcpServerSingle.Laws.{Allowed, step-Inv}
use cc_server.TcpServerSingle.{
  TcpServerSingle, view, Event, accepted, reported, called, loop_channel, run,
}
use cc_server.TcpServerSingle.Elsewhere.{Concerns, subject, step-Elsewhere, Allowed-kept}
use cc_server.TcpConnection.Dispatch.Laws.{is_hangup, is_input}
use cc_server.Buffer.{Buffer, max_size, writable_bytes}
use cc_server.Buffer.Invariant.{IsValid, contents}
use cc_server.Buffer.ReadFd.{Delivers, capacity, extra_size}
use cc_server.TcpConnection.Output.{Takes}
use cc_server.TcpServerSingle.Reports.{Report, All, All-both, AllDistinct, distinct_told}

module _ (epoll : EpollKernel) (eventfd : EventFd) where
  -- The active channels are those of the reports, in their order; `dispatch` reads the events that
  -- `poll` told the channel.
  unfoldable pub poll_round :
      TcpServerSingle epoll eventfd
      → List (Report epoll eventfd)
      → Outcome (TcpServerSingle epoll eventfd)
  poll_round s reports =
      let (p, _) = poll epoll s.poller (ready (map (λ r. (r.fd, r.events)) reports)) in
      run epoll eventfd (record s { poller = p }) (map (λ r. r.event) reports)

  -- A report whose handler can run.
  abbrev Awaits : TcpServerSingle epoll eventfd → Report epoll eventfd → Type 0
  Awaits s r = Concerns epoll eventfd s r.fd r.event × Allowed epoll eventfd s r.event

  subjects_differ :
      (s : TcpServerSingle epoll eventfd) (i j : ℕ) (d e : Event epoll eventfd)
      → Concerns epoll eventfd s i d × Allowed epoll eventfd s d
      → Concerns epoll eventfd s j e × Allowed epoll eventfd s e
      → i ≢ j
      → subject epoll eventfd d ≢ subject epoll eventfd e
  subjects_differ s i j (called a c) e (p, _) (q, _) ne = absurd p
  subjects_differ s i j d (called a c) (p, _) (q, _) ne = absurd q
  subjects_differ s i j (reported a _ _ _) (reported b _ _ _) (p, _) (q, _) ne =
      λ h. ne (p ∙ h ∙ sym q)
  subjects_differ s i j (accepted a _) (accepted b _) (p, _) (q, _) ne = λ h. ne (p ∙ sym q)
  subjects_differ s i j (reported a _ _ _) (accepted b _) (p, (is_in, _, _, _, _, _, _))
        (q, (free, _, _)) ne =
      λ h. ground (arith, is_in, free, h)
  subjects_differ s i j (accepted a _) (reported b _ _ _) (p, (free, _, _))
        (q, (is_in, _, _, _, _, _, _)) ne =
      λ h. ground (arith, is_in, free, h)
  subjects_differ s i j (reported a _ _ _) (loop_channel b) (p, _) (q, _) ne =
      λ h. ne (p ∙ h ∙ sym q)
  subjects_differ s i j (loop_channel a) (reported b _ _ _) (p, _) (q, _) ne =
      λ h. ne (p ∙ h ∙ sym q)
  subjects_differ s i j (loop_channel a) (loop_channel b) (p, _) (q, _) ne = λ h. ne (p ∙ h ∙ sym q)
  subjects_differ s i j (accepted a _) (loop_channel b) (p, (_, _, foreign)) (q, is_own) ne =
      λ h. ground (arith, foreign, is_own, h)
  subjects_differ s i j (loop_channel a) (accepted b _) (p, is_own) (q, (_, _, foreign)) ne =
      λ h. ground (arith, foreign, is_own, h)

  -- The handlers run one after the other.
  handlers-Inv :
      (s : TcpServerSingle epoll eventfd) (reports : List (Report epoll eventfd))
      → Inv epoll eventfd s
      → AllDistinct epoll eventfd reports
      → All (Awaits s) reports
      → (t : TcpServerSingle epoll eventfd) × (run epoll eventfd s (map (λ r. r.event) reports)
          ≡ ok t)
        × Inv epoll eventfd t
  unfolding run
  handlers-Inv s [] v distinct all = (s, refl, v)
  handlers-Inv s (r ∷ reports) v (apart, distinct) ((of, allowed), all) =
      let (t, e, w) = step-Inv epoll eventfd s r.event v allowed in
      let moved = step-Elsewhere epoll eventfd s t r.fd r.event v allowed of e in
      let rest : All (Awaits t) reports =
        All-both (λ x. r.fd ≢ x.fd) (Awaits s) (Awaits t) reports
          (λ x ne waits.
            Allowed-kept epoll eventfd s t (subject epoll eventfd r.event) x.fd x.event v moved
              (subjects_differ s r.fd x.fd r.event x.event (of, allowed) waits ne) waits.0 waits.1)
          apart all in
      let (u, e', w') = handlers-Inv t reports w distinct rest in (u, ground (arith, e, e'), w')

  -- The server after `poll`.
  abbrev polled :
      TcpServerSingle epoll eventfd → List (Report epoll eventfd) → TcpServerSingle epoll eventfd
  polled s reports = record s {
    poller = (poll epoll s.poller (ready (map (λ r. (r.fd, r.events)) reports))).0;
  }

  polled-Inv :
      (s : TcpServerSingle epoll eventfd) (reports : List (Report epoll eventfd))
      → Inv epoll eventfd s
      → Inv epoll eventfd (polled s reports)
  unfolding poll
  polled-Inv s reports v =
      let l = map (λ r. (r.fd, r.events)) reports in
      let sync = poll-InSync epoll s.poller l v.in_sync in
      let same = mark-SameRequests epoll s.poller.channels l in
      record {
        in_sync = sync;
        members = λ fd is_in.
            let m = v.members fd is_in in
            record {
              inv = record {
                in_sync = sync;
                input = m.inv.input;
                output = m.inv.output;
                established = m.inv.established;
                urgent =
                    λ up. ap (λ x. x.epoll_pri) (same (s.table fd).fd).events ∙ m.inv.urgent up;
                writing =
                    λ up. ap (λ x. x.epoll_out) (same (s.table fd).fd).events ∙ m.inv.writing up;
              };
              up = m.up;
              same_fd = m.same_fd;
            };
        unpolled = λ fd out ne foreign. (same fd).polling ∙ v.unpolled fd out ne foreign;
        loop_polled = λ fd is_own.
            let (out, polls) = v.loop_polled fd is_own in (out, (same fd).polling ∙ polls);
        listener = v.listener;
      }

  -- What is assumed of a report when epoll_wait(2) answers, as in `Allowed` for a channel that is told
  -- the events.
  abbrev pub IsReady : TcpServerSingle epoll eventfd → ℕ → Events → Event epoll eventfd → Type 0
  IsReady s fd events (called fd' call) = ⊥
  IsReady s fd events (accepted fd' loop) =
      (fd ≡ s.accept_fd)
      × (s.connections fd' ≡ false)
      × (fd' ≢ s.accept_fd)
      × (s.loop_fds fd' ≡ false)
  IsReady s fd events (loop_channel fd') = (fd ≡ fd') × (s.loop_fds fd' ≡ true)
  IsReady s fd events (reported fd' readv callback answer) =
      let c = view epoll eventfd s fd' in
      (fd ≡ fd')
      × (s.connections fd' ≡ true)
      × ((b : Buffer) → IsValid b → (b' : Buffer) × (callback b ≡ ok b') × IsValid b')
      × Delivers (readv (capacity (writable_bytes c.input_buffer)))
          (capacity (writable_bytes c.input_buffer))
      × (length c.input_buffer.bytes + extra_size ≤ max_size)
      × Takes answer (contents c.output_buffer)
      × ((events.epoll_out ≡ false) ⊎ ((channel epoll eventfd c).events.epoll_out ≡ true))
      × (is_hangup events && is_input events ≡ false)

  abbrev pub AllReady : TcpServerSingle epoll eventfd → List (Report epoll eventfd) → Type 0
  AllReady s [] = Unit {0}
  AllReady s (r ∷ rs) = IsReady s r.fd r.events r.event × AllReady s rs

  ready-Awaits :
      (s : TcpServerSingle epoll eventfd) (all : List (Report epoll eventfd)) (fd : ℕ)
      (events : Events) (e : Event epoll eventfd)
      → Inv epoll eventfd s
      → ((polled s all).poller.channels fd).revents ≡ events
      → IsReady s fd events e
      → Concerns epoll eventfd (polled s all) fd e × Allowed epoll eventfd (polled s all) e
  unfolding poll
  ready-Awaits s all fd events (called fd' call) v told h = absurd h
  ready-Awaits s all fd events (accepted fd' loop) v told (of, free, other, foreign) =
      (of, (free, other, foreign))
  ready-Awaits s all fd events (loop_channel fd') v told (of, is_own) = (of, is_own)
  ready-Awaits s all fd events (reported fd' readv callback answer) v told
        (of, is_in, cb, delivers, room, takes, asked, clean) =
      let m = v.members fd' is_in in
      let p = (polled s all).poller in
      let revents : (p.channels (s.table fd').fd).revents ≡ events =
        ap (λ k. (p.channels k).revents) (m.same_fd ∙ sym of) ∙ told in
      let wanted =
        (mark-SameRequests epoll s.poller.channels (map (λ r. (r.fd, r.events)) all)
          (s.table fd').fd).events in
      (
        of,
        (
          is_in,
          cb,
          delivers,
          room,
          takes,
          elim asked [
            | inl quiet ↦ inl (ap (λ x. x.epoll_out) revents ∙ quiet)
            | inr writes ↦ inr (ap (λ x. x.epoll_out) wanted ∙ writes)
          ],
          ap (λ x. is_hangup x && is_input x) revents ∙ clean,
        ),
      )

  All-Awaits :
      (s : TcpServerSingle epoll eventfd) (all reports : List (Report epoll eventfd))
      → Inv epoll eventfd s
      → AllReady s reports
      → All (λ r. ((polled s all).poller.channels r.fd).revents ≡ r.events) reports
      → All (Awaits (polled s all)) reports
  All-Awaits s all [] v a t = tt
  All-Awaits s all (r ∷ reports) v (h, a) (told, t) =
      (ready-Awaits s all r.fd r.events r.event v told h, All-Awaits s all reports v a t)

  -- Whatever descriptors epoll_wait(2) reports, each once, with whatever events, poll and then the
  -- handlers of the active channels, that of the acceptor included, go through with no failed
  -- assertion and keep the server's invariant: the handler of one connection, which may end it, leaves
  -- the others fit for theirs. Assumed of each report, at the time of the poll: it is for a connection
  -- of the set, with the assumptions of `dispatch_lem`; or for the acceptor, which hands over a
  -- descriptor that is not in use; or for the loop's own eventfd or timerfd, whose handlers, the
  -- callbacks of timers included, do not touch the server's connections.
  pub poll_round_lem :
      (s : TcpServerSingle epoll eventfd) (reports : List (Report epoll eventfd))
      → Inv epoll eventfd s
      → AllDistinct epoll eventfd reports
      → AllReady s reports
      → (t : TcpServerSingle epoll eventfd) × (poll_round s reports ≡ ok t) × Inv epoll eventfd t
  unfolding poll_round poll
  poll_round_lem s reports v distinct fit =
      let l = map (λ r. (r.fd, r.events)) reports in
      let told : All (λ r. ((polled s reports).poller.channels r.fd).revents ≡ r.events) reports =
        All-both (λ r. (e : Events) → Poll.reported epoll l r.fd e ≡ r.events)
          (λ r. (e : Events) → Poll.reported epoll l r.fd e ≡ r.events)
          (λ r. ((polled s reports).poller.channels r.fd).revents ≡ r.events) reports
          (λ r h _. poll_reports epoll s.poller l r.fd ∙ h (s.poller.channels r.fd).revents)
          (distinct_told epoll eventfd reports distinct)
          (distinct_told epoll eventfd reports distinct) in
      handlers-Inv (polled s reports) reports (polled-Inv s reports v) distinct
        (All-Awaits s reports reports v fit told)
