-- ===== src/TcpConnection/Close.antt =====
-- How a connection begins, reads and ends (TcpConnection.cpp: connectEstablished, handleRead,
-- handleClose, forceCloseInLoop).
use cc_server.Prelude.{
  ap, ◌∙◌, ℕ, ◌+◌, true, false, not, ◌≡◌, inr, refl, ◌||◌, [], arith, length, ℕ_discrete,
}
use cc_server.Prelude.Outcome.{ok}
use cc_server.Buffer.Invariant.{IsValid, contents}
use cc_server.Channel.{enable_read, disable_all, change_events, no_events, is_zero, tie}
use cc_server.Epoll.{EpollKernel, Poller, store}
use cc_server.Epoll.Sync.{InSync, change_ok}
use cc_server.EventLoop.{EventFd}
use cc_server.TcpConnection.{
  ConnectionState, connecting, connected, disconnecting, disconnected, Connection, channel,
  is_disconnected, is_connecting, is_connected, is_disconnecting, connect_established, handle_close,
}
use cc_server.TcpConnection.Invariant.{Inv, set_channel_ok, Changed-Inv, Inv-same}

-- The two states of an established connection that is open.
open_states :
    (s : ConnectionState)
    → is_connecting s ≡ false
    → is_disconnected s ≡ false
    → is_connected s || is_disconnecting s ≡ true
open_states connecting c d = cc
open_states connected c d = refl
open_states disconnecting c d = refl
open_states disconnected c d = cc

module _ (epoll : EpollKernel) (eventfd : EventFd) where
  -- A connection that ended: nothing is polled, and the close callback ran once more.
  pub record Closed (c c' : Connection epoll eventfd) : Type 0 where
    pub inv : Inv epoll eventfd c'
    pub state : c'.state ≡ disconnected
    pub unpolled : (channel epoll eventfd c').polling ≡ false
    pub closes : c'.closes ≡ c.closes + 1

  -- `handleClose` on an open connection goes through: afterwards the connection is disconnected,
  -- the kernel watches its descriptor no more, and the close callback was called once.
  pub handle_close_lem :
      (c : Connection epoll eventfd)
      → Inv epoll eventfd c
      → is_disconnected c.state ≡ false
      → (c' : Connection epoll eventfd) × (handle_close epoll eventfd c ≡ ok c') × Closed c c'
  unfolding handle_close change_events is_zero
  handle_close_lem c v up =
      let c₁ : Connection epoll eventfd = record c { state = disconnected } in
      let (p, e, changed) = set_channel_ok epoll eventfd disable_all c₁ v.in_sync (v.urgent up) in
      let c₂ : Connection epoll eventfd = record c₁ { poller = p } in
      let w : Inv epoll eventfd c₂ =
        Changed-Inv epoll eventfd disable_all c₁ p changed v.input v.output refl (λ d. cc) in
      let c₃ : Connection epoll eventfd = record c₂ { closes = c.closes + 1 } in
      (
        c₃,
        ground (arith, e, open_states c.state v.established up),
        record {
          inv = Inv-same epoll eventfd c₂ c₃ refl refl refl refl refl w;
          state = refl;
          unpolled = changed.in_sync.polled c.fd ∙ ap (λ x. not (is_zero x)) changed.here;
          closes = refl;
        },
      )

  -- A connection that was just created, with a channel that has not been used.
  pub record IsFresh (c : Connection epoll eventfd) : Type 0 where
    pub in_sync : InSync epoll c.poller
    pub input : IsValid c.input_buffer
    pub output : IsValid c.output_buffer
    pub empty : contents c.output_buffer ≡ []
    pub state : c.state ≡ connecting
    pub unused : (channel epoll eventfd c).events ≡ no_events

  tie-InSync :
      (p : Poller epoll) (fd : ℕ)
      → InSync epoll p
      → InSync epoll (store epoll p (tie (p.channels fd)))
  unfolding tie
  tie-InSync p fd s = record {
    own_fd = λ j. ground (arith, s.own_fd j);
    listed = λ j. elim (ℕ_discrete fd j) [
      | yes e ↦ rw (← e) (ground (arith, s.own_fd fd, s.listed fd))
      | no ne ↦ ground (arith, s.own_fd fd, s.listed j)
    ];
    polled = λ j. elim (ℕ_discrete fd j) [
      | yes e ↦ rw (← e) (ground (arith, s.own_fd fd, s.polled fd))
      | no ne ↦ ground (arith, s.own_fd fd, s.polled j)
    ];
    no_errors = s.no_errors;
  }

  tie-events :
      (p : Poller epoll) (fd : ℕ)
      → InSync epoll p
      → ((store epoll p (tie (p.channels fd))).channels fd).events ≡ (p.channels fd).events
  unfolding tie
  tie-events p fd s = ground (arith, s.own_fd fd)

  -- `connectEstablished` on a fresh connection goes through and leaves it connected, read from, and
  -- with the invariant that the other calls keep.
  pub connect_established_lem :
      (c : Connection epoll eventfd)
      → IsFresh c
      → (c' : Connection epoll eventfd) × (connect_established epoll eventfd c ≡ ok c')
        × Inv epoll eventfd c'
        × (c'.state ≡ connected)
        × ((channel epoll eventfd c').events.epoll_in ≡ true)
  unfolding connect_established change_events is_zero
  connect_established_lem c f =
      let c₁ : Connection epoll eventfd = record c {
        state = connected;
        poller = store epoll c.poller (tie (channel epoll eventfd c));
      } in
      let s = tie-InSync c.poller c.fd f.in_sync in
      let same : (channel epoll eventfd c₁).events ≡ no_events =
        tie-events c.poller c.fd f.in_sync ∙ f.unused in
      let (p, e, changed) = change_ok epoll c₁.poller c.fd enable_read s (inr refl) in
      (
        record c₁ { poller = p },
        ground (arith, f.state, e),
        Changed-Inv epoll eventfd enable_read c₁ p changed f.input f.output refl
            (λ _. (refl, ground (arith, same, ap length f.empty))),
        refl,
        ap (λ x. x.epoll_in) changed.here,
      )
