-- ===== src/TcpConnection/Invariant.antt =====
-- What holds of a connection between two calls, once it is established (TcpConnection.cpp).
use cc_server.Prelude.{ap, ◌∙◌, Bool, true, false, ◌≡◌, inl, arith, ltb, length}
use cc_server.Prelude.Outcome.{ok}
use cc_server.Buffer.{Buffer}
use cc_server.Buffer.Invariant.{IsValid, contents}
use cc_server.Channel.{Change, change_events, is_zero}
use cc_server.Epoll.{EpollKernel, Poller}
use cc_server.Epoll.Sync.{InSync, Changed, change_ok}
use cc_server.EventLoop.{EventFd}
use cc_server.TcpConnection.{Connection, channel, set_channel, is_disconnected, is_connecting}

abbrev pub has_bytes : Buffer → Bool
has_bytes b = ltb 0 (length (contents b))

module _ (epoll : EpollKernel) (eventfd : EventFd) where
  -- The descriptor is polled for urgent data as long as the connection is open, since `disableRead`
  -- does not clear EPOLLPRI; and it is polled for output just while there are bytes to write.
  pub record Inv (c : Connection epoll eventfd) : Type 0 where
    pub in_sync : InSync epoll c.poller
    pub input : IsValid c.input_buffer
    pub output : IsValid c.output_buffer
    pub established : is_connecting c.state ≡ false
    pub urgent : is_disconnected c.state ≡ false → (channel epoll eventfd c).events.epoll_pri ≡ true
    pub writing :
        is_disconnected c.state ≡ false
        → (channel epoll eventfd c).events.epoll_out ≡ has_bytes c.output_buffer

  -- A change of the events of an open connection goes through.
  pub set_channel_ok :
      (ch : Change) (c : Connection epoll eventfd)
      → InSync epoll c.poller
      → (channel epoll eventfd c).events.epoll_pri ≡ true
      → (p : Poller epoll) × (set_channel epoll eventfd ch c ≡ ok (record c { poller = p }))
        × Changed epoll c.poller c.fd ch p
  unfolding is_zero
  set_channel_ok ch c s pri =
      let (p, e, changed) =
        change_ok epoll c.poller c.fd ch s (inl (s.polled c.fd ∙ ground (arith, pri))) in
      (p, ground (arith, e), changed)

  -- A change of events keeps the invariant, if it leaves EPOLLPRI set and EPOLLOUT as the output
  -- buffer wants it.
  pub Changed-Inv :
      (ch : Change) (c : Connection epoll eventfd) (p : Poller epoll)
      → Changed epoll c.poller c.fd ch p
      → IsValid c.input_buffer
      → IsValid c.output_buffer
      → is_connecting c.state ≡ false
      → (is_disconnected c.state ≡ false
          → ((change_events ch (channel epoll eventfd c).events).epoll_pri ≡ true)
            × ((change_events ch (channel epoll eventfd c).events).epoll_out
                ≡ has_bytes c.output_buffer))
      → Inv (record c { poller = p })
  Changed-Inv ch c p changed i o e h = record {
    in_sync = changed.in_sync;
    input = i;
    output = o;
    established = e;
    urgent = λ up. ap (λ x. x.epoll_pri) changed.here ∙ (h up).0;
    writing = λ up. ap (λ x. x.epoll_out) changed.here ∙ (h up).1;
  }

  -- The invariant is about these fields alone.
  pub Inv-same :
      (c d : Connection epoll eventfd)
      → d.state ≡ c.state
      → d.fd ≡ c.fd
      → d.poller ≡ c.poller
      → d.input_buffer ≡ c.input_buffer
      → d.output_buffer ≡ c.output_buffer
      → Inv c
      → Inv d
  Inv-same c d s f p i o v = record {
    in_sync = rw p v.in_sync;
    input = rw i v.input;
    output = rw o v.output;
    established = rw s v.established;
    urgent = rw (s, p, f) v.urgent;
    writing = rw (s, p, f, o) v.writing;
  }
