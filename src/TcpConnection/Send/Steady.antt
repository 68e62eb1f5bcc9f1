-- ===== src/TcpConnection/Send/Steady.antt =====
-- What the calls of a connection's user leave alone: the channels of other descriptors, and whether
-- the connection is open (TcpConnection.cpp).
use mathlib.Core.Path.{subst}
use cc_server.Prelude.{
  ◌≡◌, refl, ap, sym, ◌∙◌, inl, inr, Bool, false, not, ◌&&◌, List, ℕ, arith, Bool-cases, ltb,
  length, ◌==◌,
}
use cc_server.Prelude.Outcome.{Outcome, ok, ◌>>=◌, assert, both-ok}
use cc_server.Buffer.{append, readable_bytes}
use cc_server.Channel.{Change, enable_write}
use cc_server.Epoll.{EpollKernel, change}
use cc_server.EventLoop.{EventFd}
use cc_server.TcpConnection.{
  Connection, WriteResult, wrote, write_failed, channel, set_channel, is_disconnected, write_now,
  note_high_water, keep_rest, send_in_loop,
}
use cc_server.TcpConnection.Frame.{
  ok_injective, Frame, Frame-refl, Frame-trans, Frame-same, set_channel-Keeps,
}

module _ (epoll : EpollKernel) (eventfd : EventFd) where
  -- The close callback is not called, and the connection is open if it was.
  pub record Steady (c d : Connection epoll eventfd) : Type 0 where
    pub frame : Frame epoll eventfd c d
    pub closes : d.closes ≡ c.closes
    pub up : is_disconnected c.state ≡ false → is_disconnected d.state ≡ false

  pub Steady-trans : (c d e : Connection epoll eventfd) → Steady c d → Steady d e → Steady c e
  Steady-trans c d e s t = record {
    frame = Frame-trans epoll eventfd c d e s.frame t.frame;
    closes = t.closes ∙ s.closes;
    up = λ u. t.up (s.up u);
  }

  pub Steady-refl : (c : Connection epoll eventfd) → Steady c c
  Steady-refl c = record { frame = Frame-refl epoll eventfd c; closes = refl; up = λ u. u }

  pub Steady-same :
      (c d : Connection epoll eventfd)
      → d.fd ≡ c.fd
      → d.poller ≡ c.poller
      → d.closes ≡ c.closes
      → (is_disconnected c.state ≡ false → is_disconnected d.state ≡ false)
      → Steady c d
  Steady-same c d f p n u = record { frame = Frame-same epoll eventfd c d f p; closes = n; up = u }

  -- What a call that goes through leaves.
  abbrev pub Stays : Connection epoll eventfd → Outcome (Connection epoll eventfd) → Type 0
  Stays c o = (d : Connection epoll eventfd) → o ≡ ok d → Steady c d

  pub ok-Stays : (c d : Connection epoll eventfd) → Steady c d → Stays c (ok d)
  ok-Stays c d s e eq = subst (Steady c) (ok_injective eq) s

  pub bind-Stays {ℓ} :
      {A : Type ℓ} (c : Connection epoll eventfd) (m : Outcome A)
      (f : A → Outcome (Connection epoll eventfd))
      → ((a : A) → m ≡ ok a → Stays c (f a))
      → Stays c (m >>= f)
  bind-Stays c m f h d e = let (a, last, first) = both-ok f m (sym e) in h a first d last

  pub moved-Stays :
      (c d : Connection epoll eventfd) (o : Outcome (Connection epoll eventfd))
      → Steady c d
      → Stays d o
      → Stays c o
  moved-Stays c d o s k e eq = Steady-trans c d e s (k e eq)

  pub set_channel-Stays :
      (ch : Change) (c : Connection epoll eventfd) → Stays c (set_channel epoll eventfd ch c)
  set_channel-Stays ch c d e =
      let (p, last, first) =
        both-ok (λ p. ok (record c { poller = p })) (change epoll c.poller c.fd ch) (sym e) in
      let same = ok_injective last in
      record {
        frame = set_channel-Keeps epoll eventfd ch c d e;
        closes = sym (ap (λ x. x.closes) same);
        up = λ u. sym (ap (λ x. is_disconnected x.state) same) ∙ u;
      }

  keep_rest-Stays :
      (rest : List ℕ) (fault : Bool) (c : Connection epoll eventfd)
      → Stays c (keep_rest epoll eventfd rest fault c)
  unfolding keep_rest
  keep_rest-Stays rest fault c = elim (Bool-cases (not fault && ltb 0 (length rest))) [
    | inr done ↦ rw done (ok-Stays c c (Steady-refl c))
    | inl more ↦ rw more (
        bind-Stays c (append c.output_buffer rest) _ λ b e.
          let d : Connection epoll eventfd = record c {
            loop = note_high_water epoll eventfd (length rest) c;
            output_buffer = b;
          } in
          moved-Stays c d (set_channel epoll eventfd enable_write d)
            (Steady-same c d refl refl refl (λ u. u)) (set_channel-Stays enable_write d))
  ]

  write_now-Steady :
      (answer : WriteResult) (source : List ℕ) (c : Connection epoll eventfd)
      → Steady c (write_now epoll eventfd answer source c).0
  unfolding write_now
  write_now-Steady (write_failed e) source c = Steady-refl c
  write_now-Steady (wrote n) source c =
      Steady-same c (write_now epoll eventfd (wrote n) source c).0 (ground arith) (ground arith)
        (ground arith) (λ u. ground (arith, u))

  pub send_in_loop-Stays :
      (answer : WriteResult) (source : List ℕ) (c : Connection epoll eventfd)
      → Stays c (send_in_loop epoll eventfd answer source c)
  unfolding send_in_loop
  send_in_loop-Stays answer source c =
      let (c', rest, fault) = write_now epoll eventfd answer source c in
      elim (Bool-cases (is_disconnected c.state)) [
        | inl down ↦ rw down (ok-Stays c c (Steady-refl c))
        | inr up ↦ elim (Bool-cases (channel epoll eventfd c).events.epoll_out) [
          | inl busy ↦ rw (up, busy) (keep_rest-Stays source false c)
          | inr idle ↦
              rw (up, idle)
                (bind-Stays c (assert (readable_bytes c.output_buffer == 0)) _ λ _ _.
                  moved-Stays c c' (keep_rest epoll eventfd rest fault c')
                    (write_now-Steady answer source c) (keep_rest-Stays rest fault c'))
        ]
      ]
