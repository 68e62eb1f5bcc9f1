-- ===== src/TcpServerSingle/Members.antt =====
-- The connections of a server's set, and a change of one of them (TcpServerSingle.cpp).
use mathlib.Core.Path.{subst}
use cc_server.Prelude.{
  ℕ, ◌≡◌, ◌≢◌, ap, sym, ◌∙◌, ◌⊎◌, inl, inr, Bool, true, false, arith, ℕ_discrete,
}
use cc_server.Prelude.Map.{update}
use cc_server.Epoll.{EpollKernel}
use cc_server.Epoll.Sync.{InSync}
use cc_server.EventLoop.{EventFd}
use cc_server.TcpConnection.{Connection, channel, is_disconnected}
use cc_server.TcpConnection.Invariant
use cc_server.TcpServerSingle.{TcpServerSingle, view, put}

module _ (epoll : EpollKernel) (eventfd : EventFd) where
  -- What holds of a connection in the set.
  pub record IsMember (s : TcpServerSingle epoll eventfd) (fd : ℕ) : Type 0 where
    pub inv : Invariant.Inv epoll eventfd (view epoll eventfd s fd)
    pub up : is_disconnected (s.table fd).state ≡ false
    pub same_fd : (s.table fd).fd ≡ fd

  pub record Inv (s : TcpServerSingle epoll eventfd) : Type 0 where
    pub in_sync : InSync epoll s.poller
    pub members : (fd : ℕ) → s.connections fd ≡ true → IsMember s fd
    pub unpolled :
        (fd : ℕ)
        → s.connections fd ≡ false
        → fd ≢ s.accept_fd
        → s.loop_fds fd ≡ false
        → (s.poller.channels fd).polling ≡ false
    pub loop_polled :
        (fd : ℕ)
        → s.loop_fds fd ≡ true
        → (s.connections fd ≡ false) × ((s.poller.channels fd).polling ≡ true)
    pub listener : s.connections s.accept_fd ≡ false

  -- A connection keeps its invariant while another one changes.
  other-IsMember :
      (s t : TcpServerSingle epoll eventfd) (fd : ℕ)
      → IsMember s fd
      → InSync epoll t.poller
      → t.table fd ≡ s.table fd
      → t.poller.channels fd ≡ s.poller.channels fd
      → IsMember t fd
  other-IsMember s t fd m sync same ch =
      let v = m.inv in
      let at : t.poller.channels (t.table fd).fd ≡ s.poller.channels (s.table fd).fd =
        ap (λ x. t.poller.channels x.fd) same
        ∙ ap t.poller.channels m.same_fd
        ∙ ch
        ∙ ap s.poller.channels (sym m.same_fd) in
      record {
        inv = record {
          in_sync = sync;
          input = rw same v.input;
          output = rw same v.output;
          established = rw same v.established;
          urgent = λ up. ap (λ x. x.events.epoll_pri) at ∙ v.urgent m.up;
          writing = λ up.
              ap (λ x. x.events.epoll_out) at
              ∙ v.writing m.up
              ∙ ap (λ x. Invariant.has_bytes x.output_buffer) (sym same);
        };
        up = ap (λ x. is_disconnected x.state) same ∙ m.up;
        same_fd = ap (λ x. x.fd) same ∙ m.same_fd;
      }

  self-IsMember :
      (s : TcpServerSingle epoll eventfd) (fd : ℕ) (c : Connection epoll eventfd)
      (connections : ℕ → Bool) (n : ℕ)
      → Invariant.Inv epoll eventfd c
      → c.fd ≡ fd
      → is_disconnected c.state ≡ false
      → IsMember (record (put epoll eventfd s fd c) { connections = connections; calls = n }) fd
  self-IsMember s fd c connections n w own up =
      let same : update s.table fd c fd ≡ c = ground arith in
      record {
        inv =
            subst (Invariant.Inv epoll eventfd)
              (ap (λ (x : Connection epoll eventfd). record x { poller = c.poller }) (sym same)) w;
        up = ap (λ x. is_disconnected x.state) same ∙ up;
        same_fd = ap (λ x. x.fd) same ∙ own;
      }

  -- The state after one connection changed: it is in the set and open, or out of it and not polled.
  pub put-Inv :
      (s : TcpServerSingle epoll eventfd) (fd : ℕ) (c : Connection epoll eventfd) (b : Bool) (n : ℕ)
      → Inv s
      → fd ≢ s.accept_fd
      → s.loop_fds fd ≡ false
      → Invariant.Inv epoll eventfd c
      → c.fd ≡ fd
      → ((j : ℕ) → fd ≢ j → c.poller.channels j ≡ s.poller.channels j)
      → ((b ≡ true) × (is_disconnected c.state ≡ false))
        ⊎ ((b ≡ false) × ((channel epoll eventfd c).polling ≡ false))
      → Inv
          (record (put epoll eventfd s fd c) { connections = update s.connections fd b; calls = n })
  put-Inv s fd c b n v other foreign w own elsewhere ends = record {
    in_sync = w.in_sync;
    members = λ j is_in. elim (ℕ_discrete fd j) [
      | yes e ↦ rw (← e) (
          self-IsMember s fd c (update s.connections fd b) n w own (elim ends [
            | inl (is_on, up) ↦ up
            | inr (gone, unpolled) ↦ absurd (ground (arith, gone, is_in, e))
          ]))
      | no ne ↦
          other-IsMember s _ j (v.members j (ground (arith, is_in, ne))) w.in_sync
            (ground (arith, ne)) (elsewhere j ne)
    ];
    unpolled = λ j out ne apart. elim (ℕ_discrete fd j) [
      | yes e ↦ elim ends [
        | inl (is_in, up) ↦ absurd (ground (arith, out, e, is_in))
        | inr (gone, unpolled) ↦
            ap (λ k. (c.poller.channels k).polling) (sym e ∙ sym own) ∙ unpolled
      ]
      | no away ↦
          ap (λ x. x.polling) (elsewhere j away) ∙ v.unpolled j (ground (arith, out, away)) ne apart
    ];
    loop_polled = λ j is_own. elim (ℕ_discrete fd j) [
      | yes e ↦ absurd (ground (arith, e, is_own, foreign))
      | no away ↦
          let (out, polls) = v.loop_polled j is_own in
          (ground (arith, out, away), ap (λ x. x.polling) (elsewhere j away) ∙ polls)
    ];
    listener = ground (arith, v.listener, other);
  }
