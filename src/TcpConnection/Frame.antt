-- ===== src/TcpConnection/Frame.antt =====
-- What a connection leaves alone: the channels of other descriptors (TcpConnection.cpp).
use mathlib.Core.Path.{subst}
use cc_server.Prelude.{
  take, ltb, ◌++◌, ℕ, ◌+◌, ◌≡◌, ◌≢◌, refl, ap, sym, ◌∙◌, inl, inr, Bool, true, false, ◌==◌, List,
  Option, none, some, arith, if◌then◌else◌, Bool-cases,
}
use cc_server.Prelude.Outcome.{Outcome, ok, ◌>>=◌, assert, both-ok}
use cc_server.Buffer.{Buffer, retrieve, readable_bytes, copy_from, peek}
use cc_server.Buffer.ReadFd.{ReadResult, read_fd}
use cc_server.TcpConnection.Dispatch.Laws.{is_hangup, is_input}
use cc_server.Channel.{Events, Change, tie, enable_read, disable_all, disable_write, is_writing}
use cc_server.Channel.Dispatch.{call_if, handle_event, handle_event_with_guard}
use cc_server.Epoll.{EpollKernel, Poller, change, update_channel, store, control}
use cc_server.EventLoop.{EventFd}
use cc_server.TcpConnection.{
  Connection, WriteResult, wrote, write_failed, channel, set_channel, is_disconnected,
  is_disconnecting, shutdown_in_loop, output_drained, after_write, handle_write, handle_close,
  after_read, handle_read, disconnected, queue, write_complete, connect_established, connected,
  is_connecting,
}
use cc_server.TcpConnection.Dispatch.{dispatch, callbacks, handle_error}

pub ok_injective {ℓ} : {A : Type ℓ} {a b : A} → ok a ≡ ok b → a ≡ b
ok_injective e = cc

-- The change of one channel leaves the others.
change-elsewhere :
    (epoll : EpollKernel) (p q : Poller epoll) (fd : ℕ) (ch : Change)
    → (p.channels fd).fd ≡ fd
    → change epoll p fd ch ≡ ok q
    → ((q.channels fd).fd ≡ fd) × ((j : ℕ) → fd ≢ j → q.channels j ≡ p.channels j)
unfolding change update_channel control
change-elsewhere epoll p q fd ch own e =
    (ground (arith, own, e), λ j ne. ground (arith, own, e, ne))

module _ (epoll : EpollKernel) (eventfd : EventFd) where
  pub record Frame (c d : Connection epoll eventfd) : Type 0 where
    pub same_fd : d.fd ≡ c.fd
    pub own : (channel epoll eventfd c).fd ≡ c.fd → (channel epoll eventfd d).fd ≡ d.fd
    pub elsewhere :
        (channel epoll eventfd c).fd ≡ c.fd
        → (j : ℕ) → c.fd ≢ j
        → d.poller.channels j ≡ c.poller.channels j

  pub Frame-refl : (c : Connection epoll eventfd) → Frame c c
  Frame-refl c = record { same_fd = refl; own = λ o. o; elsewhere = λ o j ne. refl }

  pub Frame-trans : (c d e : Connection epoll eventfd) → Frame c d → Frame d e → Frame c e
  Frame-trans c d e f g = record {
    same_fd = g.same_fd ∙ f.same_fd;
    own = λ o. g.own (f.own o);
    elsewhere =
        λ o j ne. g.elsewhere (f.own o) j (λ q. ne (sym f.same_fd ∙ q)) ∙ f.elsewhere o j ne;
  }

  -- These two fields alone matter.
  pub Frame-same : (c d : Connection epoll eventfd) → d.fd ≡ c.fd → d.poller ≡ c.poller → Frame c d
  Frame-same c d f p = record {
    same_fd = f;
    own = λ o. rw (p, f) o;
    elsewhere = λ o j ne. ap (λ x. x.channels j) p;
  }

  -- What a call that goes through leaves alone.
  abbrev pub Keeps : Connection epoll eventfd → Outcome (Connection epoll eventfd) → Type 0
  Keeps c o = (d : Connection epoll eventfd) → o ≡ ok d → Frame c d

  ok-Keeps : (c d : Connection epoll eventfd) → Frame c d → Keeps c (ok d)
  ok-Keeps c d f e eq = subst (Frame c) (ok_injective eq) f

  bind-Keeps {ℓ} :
      {A : Type ℓ} (c : Connection epoll eventfd) (m : Outcome A)
      (f : A → Outcome (Connection epoll eventfd))
      → ((a : A) → m ≡ ok a → Keeps c (f a))
      → Keeps c (m >>= f)
  bind-Keeps c m f h d e = let (a, e₂, e₁) = both-ok f m (sym e) in h a e₁ d e₂

  pub set_channel-Keeps :
      (ch : Change) (c : Connection epoll eventfd) → Keeps c (set_channel epoll eventfd ch c)
  set_channel-Keeps ch c = bind-Keeps c (change epoll c.poller c.fd ch) _ λ p e.
      ok-Keeps c (record c { poller = p })
        (record {
          same_fd = refl;
          own = λ o. (change-elsewhere epoll c.poller p c.fd ch o e).0;
          elsewhere = λ o. (change-elsewhere epoll c.poller p c.fd ch o e).1;
        })

  moved-Keeps :
      (c d : Connection epoll eventfd) (o : Outcome (Connection epoll eventfd))
      → Frame c d
      → Keeps d o
      → Keeps c o
  moved-Keeps c d o f k e eq = Frame-trans c d e f (k e eq)

  pub handle_close-Keeps : (c : Connection epoll eventfd) → Keeps c (handle_close epoll eventfd c)
  unfolding handle_close
  handle_close-Keeps c =
      let ended : Connection epoll eventfd = record c { state = disconnected } in
      bind-Keeps c _ _ λ _ _. bind-Keeps c (set_channel epoll eventfd disable_all ended) _ λ d e.
        ok-Keeps c (record d { closes = c.closes + 1 })
          (Frame-trans c ended _ (Frame-same c ended refl refl) (
            Frame-trans ended d _ (set_channel-Keeps disable_all ended d e)
              (Frame-same d _ refl refl)))

  after_read-Keeps :
      (callback : Buffer → Outcome Buffer) (count : Option ℕ) (c : Connection epoll eventfd)
      → Keeps c (after_read epoll eventfd callback count c)
  unfolding after_read
  after_read-Keeps callback none c = ok-Keeps c c (Frame-refl c)
  after_read-Keeps callback (some n) c = elim (Bool-cases (n == 0)) [
    | inl ended ↦ rw ended (handle_close-Keeps c)
    | inr more ↦ rw more (
        bind-Keeps c (callback c.input_buffer) _ λ b e.
          ok-Keeps c (record c { input_buffer = b; messages = c.messages + 1 })
            (Frame-same c _ refl refl))
  ]

  pub handle_read-Keeps :
      (readv : ℕ → ReadResult) (callback : Buffer → Outcome Buffer) (c : Connection epoll eventfd)
      → Keeps c (handle_read epoll eventfd readv callback c)
  unfolding handle_read
  handle_read-Keeps readv callback c = bind-Keeps c _ _ λ _ _.
      bind-Keeps c (read_fd readv c.input_buffer) _ λ r e.
        moved-Keeps c (record c { input_buffer = r.buffer }) _ (Frame-same c _ refl refl)
          (after_read-Keeps callback r.count (record c { input_buffer = r.buffer }))

  drained : Connection epoll eventfd → Connection epoll eventfd
  drained d =
      let d' = if is_disconnecting d.state then shutdown_in_loop epoll eventfd d else d in
      if d'.has_write_complete then queue epoll eventfd true write_complete d' else d'

  drained-Frame : (d : Connection epoll eventfd) → Frame d (drained d)
  unfolding drained shutdown_in_loop
  drained-Frame d = Frame-same d (drained d) (ground arith) (ground arith)

  output_drained-Keeps : (c : Connection epoll eventfd) → Keeps c (output_drained epoll eventfd c)
  unfolding output_drained drained
  output_drained-Keeps c = bind-Keeps c (set_channel epoll eventfd disable_write c) _ λ d e.
      ok-Keeps c (drained d)
        (Frame-trans c d (drained d) (set_channel-Keeps disable_write c d e) (drained-Frame d))

  after_write-Keeps :
      (answer : WriteResult) (held : List ℕ) (c : Connection epoll eventfd)
      → Keeps c (after_write epoll eventfd answer held c)
  unfolding after_write
  after_write-Keeps (write_failed n) held c = ok-Keeps c c (Frame-refl c)
  after_write-Keeps (wrote n) held c = bind-Keeps c (retrieve c.output_buffer n) _ λ b e.
      let d : Connection epoll eventfd = record c {
        output_buffer = b;
        sent = c.sent ++ take n held;
      } in
      elim (Bool-cases (readable_bytes b == 0)) [
        | inl empty ↦
            rw empty (moved-Keeps c d _ (Frame-same c d refl refl) (output_drained-Keeps d))
        | inr more ↦ rw more (ok-Keeps c d (Frame-same c d refl refl))
      ]

  pub handle_write-Keeps :
      (answer : WriteResult) (c : Connection epoll eventfd)
      → Keeps c (handle_write epoll eventfd answer c)
  unfolding handle_write
  handle_write-Keeps answer c = elim (Bool-cases (is_disconnected c.state)) [
    | inl ended ↦ rw ended (ok-Keeps c c (Frame-refl c))
    | inr up ↦ rw up (
        bind-Keeps c (assert (ltb 0 (readable_bytes c.output_buffer))) _ λ _ _.
          bind-Keeps c (assert (is_writing (channel epoll eventfd c))) _ λ _ _.
            bind-Keeps c
              (copy_from (peek c.output_buffer) (readable_bytes c.output_buffer)
                c.output_buffer.bytes)
              _ λ held e. after_write-Keeps answer held c)
  ]

  call_if-Keeps :
      (b : Bool) (f : Connection epoll eventfd → Outcome (Connection epoll eventfd))
      (c d : Connection epoll eventfd)
      → Frame c d
      → Keeps d (f d)
      → Keeps c (call_if b (some f) d)
  call_if-Keeps true f c d g k = moved-Keeps c d (f d) g k
  call_if-Keeps false f c d g k = ok-Keeps c d g

  guarded-Keeps :
      (readv : ℕ → ReadResult) (callback : Buffer → Outcome Buffer) (answer : WriteResult)
      (r : Events) (c : Connection epoll eventfd)
      → Keeps c (handle_event_with_guard (callbacks epoll eventfd readv callback answer) r c)
  unfolding callbacks handle_event_with_guard handle_error
  guarded-Keeps readv callback answer r c =
      bind-Keeps c (call_if (is_hangup r) (some (handle_close epoll eventfd)) c) _ λ c₁ e₁.
        let f₁ = call_if-Keeps (is_hangup r) _ c c (Frame-refl c) (handle_close-Keeps c) c₁ e₁ in
        bind-Keeps c (call_if r.epoll_err (some (handle_error epoll eventfd)) c₁) _ λ c₂ e₂.
          let f₂ = call_if-Keeps r.epoll_err _ c c₁ f₁ (ok-Keeps c₁ c₁ (Frame-refl c₁)) c₂ e₂ in
          bind-Keeps c (call_if (is_input r) (some (handle_read epoll eventfd readv callback)) c₂) _
            λ c₃ e₃.
              let f₃ =
                call_if-Keeps (is_input r) _ c c₂ f₂ (handle_read-Keeps readv callback c₂) c₃ e₃ in
              call_if-Keeps r.epoll_out _ c c₃ f₃ (handle_write-Keeps answer c₃)

  -- The events of a connection's channel change no other channel.
  pub dispatch-Keeps :
      (readv : ℕ → ReadResult) (callback : Buffer → Outcome Buffer) (answer : WriteResult)
      (c : Connection epoll eventfd)
      → Keeps c (dispatch epoll eventfd readv callback answer true c)
  unfolding dispatch handle_event
  dispatch-Keeps readv callback answer c =
      let g = guarded-Keeps readv callback answer (channel epoll eventfd c).revents c in
      elim (Bool-cases (channel epoll eventfd c).tied) [ inl y ↦ rw y g | inr n ↦ rw n g ]

  pub connect_established-Keeps :
      (c : Connection epoll eventfd)
      → (channel epoll eventfd c).fd ≡ c.fd
      → Keeps c (connect_established epoll eventfd c)
  unfolding connect_established tie
  connect_established-Keeps c own =
      let tied : Connection epoll eventfd = record c {
        state = connected;
        poller = store epoll c.poller (tie (channel epoll eventfd c));
      } in
      bind-Keeps c (assert (is_connecting c.state)) _ λ _ _.
        moved-Keeps c tied (set_channel epoll eventfd enable_read tied)
          (record {
            same_fd = refl;
            own = λ o. ground (arith, o);
            elsewhere = λ o j ne. ground (arith, o, ne);
          })
          (set_channel-Keeps enable_read tied)
