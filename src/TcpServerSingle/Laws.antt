-- ===== src/TcpServerSingle/Laws.antt =====
-- The server's set holds just the open connections, each of which keeps its own invariant
-- (TcpServerSingle.cpp).
use mathlib.Core.Path.{subst, fun_ext}
use cc_server.Prelude.{
  ℕ, ◌+◌, ◌≤◌, ◌≡◌, ◌≢◌, refl, ap, sym, ◌∙◌, ◌⊎◌, inl, inr, true, false, ◌&&◌, arith, length,
  Bool-cases,
}
use cc_server.Prelude.Outcome.{Outcome, ok}
use cc_server.Prelude.Map.{update}
use cc_server.Buffer.{Buffer, max_size, writable_bytes}
use cc_server.Buffer.Invariant.{IsValid, contents}
use cc_server.Buffer.ReadFd.{Delivers, capacity, extra_size}
use cc_server.Epoll.{EpollKernel}
use cc_server.EventLoop.{EventFd, Loop}
use cc_server.TcpConnection.{Connection, Deferred, channel, is_disconnected}
use cc_server.TcpConnection.Invariant
use cc_server.TcpConnection.Output.{Takes}
use cc_server.TcpConnection.Close.{connect_established_lem}
use cc_server.TcpConnection.Dispatch.{dispatch}
use cc_server.TcpConnection.Dispatch.Laws.{Ends, is_hangup, is_input, dispatch_lem}
use cc_server.TcpConnection.Frame.{Frame, dispatch-Keeps, connect_established-Keeps}
use cc_server.TcpConnection.Lifetime.{create-Created}
use cc_server.TcpConnection.Send.Calls.{Fits, perform, perform-Inv}
use cc_server.TcpConnection.Send.Ends.{perform-Settles}
use cc_server.TcpServerSingle.Members.{Inv, put-Inv}
use cc_server.TcpServerSingle.{
  TcpServerSingle, view, put, Event, accepted, reported, called, loop_channel, step,
  with_connection, new_connection, close_connection,
}

module _ (epoll : EpollKernel) (eventfd : EventFd) where
  -- What is asked of the environment: a descriptor that is not in use; or a report for a connection
  -- of the set, with the assumptions of `dispatch_lem`; or a call of its user or a task of its, with
  -- those of `perform-Inv`; or a channel of the loop itself.
  abbrev pub Allowed : TcpServerSingle epoll eventfd → Event epoll eventfd → Type 0
  Allowed s (accepted fd loop) =
      (s.connections fd ≡ false) × (fd ≢ s.accept_fd) × (s.loop_fds fd ≡ false)
  Allowed s (reported fd readv callback answer) =
      let c = view epoll eventfd s fd in
      (s.connections fd ≡ true)
      × ((b : Buffer) → IsValid b → (b' : Buffer) × (callback b ≡ ok b') × IsValid b')
      × Delivers (readv (capacity (writable_bytes c.input_buffer)))
          (capacity (writable_bytes c.input_buffer))
      × (length c.input_buffer.bytes + extra_size ≤ max_size)
      × Takes answer (contents c.output_buffer)
      × (((channel epoll eventfd c).revents.epoll_out ≡ false)
          ⊎ ((channel epoll eventfd c).events.epoll_out ≡ true))
      × (is_hangup (channel epoll eventfd c).revents && is_input (channel epoll eventfd c).revents
          ≡ false)
  Allowed s (called fd call) =
      (s.connections fd ≡ true) × Fits epoll eventfd call (view epoll eventfd s fd)
  Allowed s (loop_channel fd) = s.loop_fds fd ≡ true

  accepted-Inv :
      (s : TcpServerSingle epoll eventfd) (fd : ℕ) (loop : Loop eventfd Deferred)
      → Inv epoll eventfd s
      → s.connections fd ≡ false
      → fd ≢ s.accept_fd
      → s.loop_fds fd ≡ false
      → (t : TcpServerSingle epoll eventfd) × (step epoll eventfd s (accepted fd loop) ≡ ok t)
        × Inv epoll eventfd t
  unfolding step new_connection
  accepted-Inv s fd loop v free other foreign =
      let (c, e, made) =
        create-Created epoll eventfd fd s.poller loop v.in_sync
          (v.unpolled fd free other foreign) in
      let f = made.fresh in
      let c₁ : Connection epoll eventfd = record c { has_write_complete = s.notifies } in
      let (d, e', w, up, reads) = connect_established_lem epoll eventfd c₁ (record {
        in_sync = f.in_sync;
        input = f.input;
        output = f.output;
        empty = f.empty;
        state = f.state;
        unused = f.unused;
      }) in
      let own : (channel epoll eventfd c₁).fd ≡ c₁.fd = made.own ∙ sym made.same_fd in
      let frame = connect_established-Keeps epoll eventfd c₁ own d e' in
      (
        record (put epoll eventfd s fd d) {
          connections = update s.connections fd true;
          calls = s.calls + 1;
        },
        ground (arith, e, e'),
        put-Inv epoll eventfd s fd d true (s.calls + 1) v other foreign w
            (frame.same_fd ∙ made.same_fd)
            (λ j ne. frame.elsewhere own j (λ q. ne (sym made.same_fd ∙ q)) ∙ made.elsewhere j ne)
            (inl (refl, ap is_disconnected up)),
      )

  -- A handler that keeps the connection's invariant, tells when it ended and touches no other
  -- channel keeps the server's.
  with_connection-Inv :
      (s : TcpServerSingle epoll eventfd) (fd : ℕ) (d : Connection epoll eventfd)
      (handler : Connection epoll eventfd → Outcome (Connection epoll eventfd))
      → Inv epoll eventfd s
      → s.connections fd ≡ true
      → handler (view epoll eventfd s fd) ≡ ok d
      → Invariant.Inv epoll eventfd d
      → Ends epoll eventfd (view epoll eventfd s fd) d
      → Frame epoll eventfd (view epoll eventfd s fd) d
      → (t : TcpServerSingle epoll eventfd) × (with_connection epoll eventfd handler fd s ≡ ok t)
        × Inv epoll eventfd t
  unfolding with_connection close_connection
  with_connection-Inv s fd d handler v is_in e w ends frame =
      let m = v.members fd is_in in
      let own = v.in_sync.own_fd (s.table fd).fd in
      let other : fd ≢ s.accept_fd = λ q. ground (arith, v.listener, is_in, ap s.connections q) in
      let foreign : s.loop_fds fd ≡ false = elim (Bool-cases (s.loop_fds fd)) [
        | inl own_fd ↦ absurd (cc (is_in, (v.loop_polled fd own_fd).0))
        | inr not_own ↦ not_own
      ] in
      let kept = put-Inv epoll eventfd s fd d in
      let same : d.fd ≡ fd = frame.same_fd ∙ m.same_fd in
      let elsewhere : (j : ℕ) → fd ≢ j → d.poller.channels j ≡ s.poller.channels j =
        λ j ne. frame.elsewhere own j (λ q. ne (sym m.same_fd ∙ q)) in
      elim ends [
        | inl (gone, closes, unpolled) ↦ (
          record (put epoll eventfd s fd d) {
            connections = update s.connections fd false;
            calls = s.calls + 1;
          },
          ground (arith, e, closes, is_in),
          kept false (s.calls + 1) v other foreign w same elsewhere (inr (refl, unpolled)),
        )
        | inr (up, closes) ↦
            let still : update s.connections fd true ≡ s.connections =
              fun_ext λ j. ground (arith, is_in) in
            (
              put epoll eventfd s fd d,
              ground (arith, e, closes),
              subst (λ m. Inv epoll eventfd (record (put epoll eventfd s fd d) { connections = m }))
                  still (kept true s.calls v other foreign w same elsewhere (inl (refl, up))),
            )
      ]

  -- Every connection that the acceptor hands over, every report of the poller, every call of a user
  -- and every deferred task of a connection of the set is handled with no failed assertion, that of
  -- `closeConnection` included, and keeps the server's invariant. Assumed is what `Allowed` says.
  pub step-Inv :
      (s : TcpServerSingle epoll eventfd) (e : Event epoll eventfd)
      → Inv epoll eventfd s
      → Allowed s e
      → (t : TcpServerSingle epoll eventfd) × (step epoll eventfd s e ≡ ok t) × Inv epoll eventfd t
  unfolding step
  step-Inv s (accepted fd loop) v (free, other, foreign) =
      accepted-Inv s fd loop v free other foreign
  step-Inv s (loop_channel fd) v allowed = (s, refl, v)
  step-Inv s (reported fd readv callback answer) v
        (is_in, cb, delivers, room, takes, asked, clean) =
      let m = v.members fd is_in in
      let (d, e, w, ends) =
        dispatch_lem epoll eventfd readv callback answer (view epoll eventfd s fd) cb m.inv m.up
          delivers room takes asked clean in
      with_connection-Inv s fd d (dispatch epoll eventfd readv callback answer true) v is_in e w
        ends (dispatch-Keeps epoll eventfd readv callback answer (view epoll eventfd s fd) d e)
  step-Inv s (called fd call) v (is_in, fits) =
      let m = v.members fd is_in in
      let (d, e, w) = perform-Inv epoll eventfd call (view epoll eventfd s fd) m.inv fits in
      let (frame, ends) =
        perform-Settles epoll eventfd call (view epoll eventfd s fd) m.inv m.up fits d e in
      with_connection-Inv s fd d (perform epoll eventfd call) v is_in e w ends frame
