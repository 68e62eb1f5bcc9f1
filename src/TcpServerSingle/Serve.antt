-- ===== src/TcpServerSingle/Serve.antt =====
-- A server from its start on (TcpServerSingle.cpp).
use cc_server.Prelude.{ℕ, ◌≡◌, ◌∙◌, ap, sym, refl, inr, true, false, List, [], ◌∷◌, arith}
use cc_server.Prelude.Outcome.{ok, ◌>>=◌}
use cc_server.Channel.{enable_read, change_events, is_zero}
use cc_server.Epoll.{EpollKernel}
use cc_server.Epoll.Sync.{InSync, change_ok}
use cc_server.EventLoop.{EventFd}
use cc_server.TcpServerSingle.{TcpServerSingle, Event, start, step, run}
use cc_server.TcpServerSingle.Members.{Inv}
use cc_server.TcpServerSingle.Laws.{Allowed, step-Inv}

module _ (epoll : EpollKernel) (eventfd : EventFd) where
  -- No connection, and no descriptor polled but the loop's own.
  pub record IsNew (s : TcpServerSingle epoll eventfd) : Type 0 where
    pub in_sync : InSync epoll s.poller
    pub alone : (fd : ℕ) → s.connections fd ≡ false
    pub unpolled : (fd : ℕ) → s.loop_fds fd ≡ false → (s.poller.channels fd).polling ≡ false
    pub loop_polled : (fd : ℕ) → s.loop_fds fd ≡ true → (s.poller.channels fd).polling ≡ true
    pub apart : s.loop_fds s.accept_fd ≡ false

  -- Each event finds the server in a state that allows it.
  abbrev pub AllAllowed : TcpServerSingle epoll eventfd → List (Event epoll eventfd) → Type 0
  AllAllowed s [] = Unit {0}
  AllAllowed s (e ∷ es) =
      Allowed epoll eventfd s e
      × ((t : TcpServerSingle epoll eventfd) → step epoll eventfd s e ≡ ok t → AllAllowed t es)

  start-Inv :
      (s : TcpServerSingle epoll eventfd)
      → IsNew s
      → (t : TcpServerSingle epoll eventfd) × (start epoll eventfd s ≡ ok t) × Inv epoll eventfd t
  unfolding start change_events is_zero
  start-Inv s new =
      let (p, e, changed) =
        change_ok epoll s.poller s.accept_fd enable_read new.in_sync (inr refl) in
      (
        record s { poller = p },
        ground (arith, e),
        record {
          in_sync = changed.in_sync;
          members = λ fd is_in. absurd (cc (is_in, new.alone fd));
          unpolled = λ fd out ne foreign.
              ap (λ x. x.polling) (changed.elsewhere fd (λ q. ne (sym q)))
              ∙ new.unpolled fd foreign;
          loop_polled = λ fd is_own. (
            new.alone fd,
            ap (λ x. x.polling)
                  (changed.elsewhere fd
                    (λ q. absurd (cc (is_own, ap s.loop_fds (sym q), new.apart))))
                ∙ new.loop_polled fd is_own,
          );
          listener = new.alone s.accept_fd;
        },
      )

  events-Inv :
      (s : TcpServerSingle epoll eventfd) (es : List (Event epoll eventfd))
      → Inv epoll eventfd s
      → AllAllowed s es
      → (t : TcpServerSingle epoll eventfd) × (run epoll eventfd s es ≡ ok t) × Inv epoll eventfd t
  unfolding run
  events-Inv s [] v all = (s, refl, v)
  events-Inv s (e ∷ es) v (allowed, all) =
      let (t, here, w) = step-Inv epoll eventfd s e v allowed in
      let (u, later, x) = events-Inv t es w (all t here) in (u, ground (arith, here, later), x)

  -- A new server that is started handles any sequence of connections handed over by the acceptor,
  -- reports of the poller, calls of the users and tasks that they deferred, with no failed assertion,
  -- that of `closeConnection` included; at the end the set holds open connections alone, each with
  -- its own invariant, the loop's own descriptors, the eventfd and the timerfd, are still polled,
  -- and no other descriptor is but those of the set and the acceptor's. Assumed is that the state
  -- allows each event: a new descriptor is not in use, reports and calls are for connections of the
  -- set or the loop's own channels, with the assumptions of `dispatch_lem` for a report and of `perform-Inv`
  -- for a call.
  pub serve_lem :
      (s : TcpServerSingle epoll eventfd) (es : List (Event epoll eventfd))
      → IsNew s
      → ((t : TcpServerSingle epoll eventfd) → start epoll eventfd s ≡ ok t → AllAllowed t es)
      → (t : TcpServerSingle epoll eventfd) × ((start epoll eventfd s >>= λ x.
            run epoll eventfd x es)
          ≡ ok t)
        × Inv epoll eventfd t
  serve_lem s es new all =
      let (t, begun, v) = start-Inv s new in
      let (u, e, w) = events-Inv t es v (all t begun) in
      (u, ap (λ o. o >>= λ x. run epoll eventfd x es) begun ∙ e, w)
