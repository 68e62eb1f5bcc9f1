-- ===== src/TcpServerSingle/Elsewhere.antt =====
-- What the handler of one connection leaves to the others (TcpServerSingle.cpp).
use mathlib.Core.Path.{subst}
use cc_server.Prelude.{ℕ, ◌≡◌, ◌≢◌, ap, sym, ◌∙◌, inl, inr, true, false, arith, Bool-cases, ltb}
use cc_server.Prelude.Outcome.{Outcome, ok, both-ok}
use cc_server.Epoll.{EpollKernel}
use cc_server.EventLoop.{EventFd, Loop}
use cc_server.TcpConnection.{Connection, Deferred, channel, connect_established}
use cc_server.TcpConnection.Lifetime.{create, Created, create-Created}
use cc_server.TcpConnection.Dispatch.{dispatch}
use cc_server.TcpConnection.Frame.{Frame, dispatch-Keeps, connect_established-Keeps, ok_injective}
use cc_server.TcpServerSingle.Members.{Inv}
use cc_server.TcpServerSingle.Laws.{Allowed}
use cc_server.TcpServerSingle.{
  TcpServerSingle, view, Event, accepted, reported, called, loop_channel, step, with_connection,
  new_connection, close_connection,
}

module _ (epoll : EpollKernel) (eventfd : EventFd) where
  -- A handler of one connection leaves what belongs to the others.
  pub record Elsewhere (s t : TcpServerSingle epoll eventfd) (fd : ℕ) : Type 0 where
    pub table : (j : ℕ) → fd ≢ j → t.table j ≡ s.table j
    pub connections : (j : ℕ) → fd ≢ j → t.connections j ≡ s.connections j
    pub channels : (j : ℕ) → fd ≢ j → t.poller.channels j ≡ s.poller.channels j
    pub accept_fd : t.accept_fd ≡ s.accept_fd
    pub loop_fds : t.loop_fds ≡ s.loop_fds

  with_connection-Elsewhere :
      (s t : TcpServerSingle epoll eventfd) (fd : ℕ)
      (handler : Connection epoll eventfd → Outcome (Connection epoll eventfd))
      → (s.table fd).fd ≡ fd
      → (s.poller.channels fd).fd ≡ fd
      → ((d : Connection epoll eventfd)
          → handler (view epoll eventfd s fd) ≡ ok d
          → Frame epoll eventfd (view epoll eventfd s fd) d)
      → with_connection epoll eventfd handler fd s ≡ ok t
      → Elsewhere s t fd
  unfolding with_connection close_connection
  with_connection-Elsewhere s t fd handler own here keeps e =
      let (d, rest, answered) = both-ok _ (handler (view epoll eventfd s fd)) (sym e) in
      let frame = keeps d answered in
      let channels : (j : ℕ) → fd ≢ j → d.poller.channels j ≡ s.poller.channels j = λ j ne.
        frame.elsewhere (ap (λ k. (s.poller.channels k).fd) own ∙ here ∙ sym own) j
          (λ q. ne (sym own ∙ q)) in
      elim (Bool-cases (ltb (s.table fd).closes d.closes)) [
        | inl over ↦ record {
          table = λ j ne. ground (arith, e, answered, over, ne);
          connections = λ j ne. ground (arith, e, answered, over, ne);
          channels = λ j ne. ground (arith, e, answered, over, channels j ne);
          accept_fd = ground (arith, e, answered, over);
          loop_fds = ground (arith, e, answered, over);
        }
        | inr goes_on ↦ record {
          table = λ j ne. ground (arith, e, answered, goes_on, ne);
          connections = λ j ne. ground (arith, e, answered, goes_on, ne);
          channels = λ j ne. ground (arith, e, answered, goes_on, channels j ne);
          accept_fd = ground (arith, e, answered, goes_on);
          loop_fds = ground (arith, e, answered, goes_on);
        }
      ]

  accepted-Elsewhere :
      (s t : TcpServerSingle epoll eventfd) (fd : ℕ) (loop : Loop eventfd Deferred)
      → Inv epoll eventfd s
      → s.connections fd ≡ false
      → fd ≢ s.accept_fd
      → s.loop_fds fd ≡ false
      → new_connection epoll eventfd fd loop s ≡ ok t
      → Elsewhere s t fd
  unfolding new_connection
  accepted-Elsewhere s t fd loop v free other foreign e =
      let (c', rest, made') = both-ok _ (create epoll eventfd fd s.poller loop) (sym e) in
      let (c, e₁, made₀) =
        create-Created epoll eventfd fd s.poller loop v.in_sync
          (v.unpolled fd free other foreign) in
      let made = subst (Created epoll eventfd fd s.poller) (ok_injective (sym e₁ ∙ made')) made₀ in
      let c₁ : Connection epoll eventfd = record c' { has_write_complete = s.notifies } in
      let (d, rest', answered) = both-ok _ (connect_established epoll eventfd c₁) (sym rest) in
      let own : (channel epoll eventfd c₁).fd ≡ c₁.fd = made.own ∙ sym made.same_fd in
      let frame = connect_established-Keeps epoll eventfd c₁ own d answered in
      let channels : (j : ℕ) → fd ≢ j → d.poller.channels j ≡ s.poller.channels j =
        λ j ne. frame.elsewhere own j (λ q. ne (sym made.same_fd ∙ q)) ∙ made.elsewhere j ne in
      record {
        table = λ j ne. ground (arith, rest', ne);
        connections = λ j ne. ground (arith, rest', ne);
        channels = λ j ne. ground (arith, rest', channels j ne);
        accept_fd = ground (arith, rest');
        loop_fds = ground (arith, rest');
      }

  -- The report is of the channel whose handler meets the event.
  abbrev pub Concerns : TcpServerSingle epoll eventfd → ℕ → Event epoll eventfd → Type 0
  Concerns s fd (reported fd' readv callback answer) = fd ≡ fd'
  Concerns s fd (accepted fd' loop) = fd ≡ s.accept_fd
  Concerns s fd (called fd' call) = ⊥
  Concerns s fd (loop_channel fd') = fd ≡ fd'

  abbrev pub subject : Event epoll eventfd → ℕ
  subject (reported fd readv callback answer) = fd
  subject (accepted fd loop) = fd
  subject (called fd call) = fd
  subject (loop_channel fd) = fd

  pub step-Elsewhere :
      (s t : TcpServerSingle epoll eventfd) (fd : ℕ) (e : Event epoll eventfd)
      → Inv epoll eventfd s
      → Allowed epoll eventfd s e
      → Concerns s fd e
      → step epoll eventfd s e ≡ ok t
      → Elsewhere s t (subject e)
  unfolding step
  step-Elsewhere s t fd (accepted fd' loop) v (free, other, foreign) of q =
      accepted-Elsewhere s t fd' loop v free other foreign q
  step-Elsewhere s t fd (loop_channel fd') v allowed of q = record {
    table = λ j ne. ground (arith, q);
    connections = λ j ne. ground (arith, q);
    channels = λ j ne. ground (arith, q);
    accept_fd = ground (arith, q);
    loop_fds = ground (arith, q);
  }
  step-Elsewhere s t fd (called fd' call) v allowed of q = absurd of
  step-Elsewhere s t fd (reported fd' readv callback answer) v (is_in, _, _, _, _, _, _) of q =
      let m = v.members fd' is_in in
      with_connection-Elsewhere s t fd' (dispatch epoll eventfd readv callback answer true)
        m.same_fd (v.in_sync.own_fd fd')
        (dispatch-Keeps epoll eventfd readv callback answer (view epoll eventfd s fd')) q

  -- What is waiting to be handled is not touched by the handlers of others.
  pub Allowed-kept :
      (s t : TcpServerSingle epoll eventfd) (other fd : ℕ) (e : Event epoll eventfd)
      → Inv epoll eventfd s
      → Elsewhere s t other
      → other ≢ subject e
      → Concerns s fd e
      → Allowed epoll eventfd s e
      → Concerns t fd e × Allowed epoll eventfd t e
  Allowed-kept s t other fd (called fd' call) v w ne of allowed = absurd of
  Allowed-kept s t other fd (accepted fd' loop) v w ne of (free, apart, foreign) = (
    of ∙ sym w.accept_fd,
    (
      w.connections fd' ne ∙ free,
      λ q. apart (q ∙ w.accept_fd),
      ap (λ l. l fd') w.loop_fds ∙ foreign,
    ),
  )
  Allowed-kept s t other fd (loop_channel fd') v w ne of allowed =
      (of, ap (λ l. l fd') w.loop_fds ∙ allowed)
  Allowed-kept s t other fd (reported fd' readv callback answer) v w ne of
        (is_in, cb, delivers, room, takes, asked, clean) =
      let m = v.members fd' is_in in
      let same = w.table fd' ne in
      let at : t.poller.channels (t.table fd').fd ≡ s.poller.channels (s.table fd').fd =
        ap (λ x. t.poller.channels x.fd) same
        ∙ ap t.poller.channels m.same_fd
        ∙ w.channels fd' ne
        ∙ ap s.poller.channels (sym m.same_fd) in
      (
        of,
        (
          w.connections fd' ne ∙ is_in,
          cb,
          rw same delivers,
          rw same room,
          rw same takes,
          rw at asked,
          rw at clean,
        ),
      )
