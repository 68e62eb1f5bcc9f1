-- ===== src/TcpConnection/Dispatch/Laws.antt =====
-- Which events of its channel a connection handles, and the one that it does not.
use cc_server.Prelude.{
  ℕ, ◌+◌, ◌≤◌, ◌≡◌, refl, ap, ◌∙◌, ◌⊎◌, inl, inr, Bool, true, false, not, ◌&&◌, ◌||◌, [], ◌∷◌, some,
  arith, length, Bool-cases,
}
use cc_server.Prelude.Outcome.{Outcome, ok, aborts, ◌>>=◌}
use cc_server.Buffer.{Buffer, max_size, writable_bytes}
use cc_server.Buffer.Invariant.{IsValid, contents}
use cc_server.Buffer.ReadFd.{ReadResult, failed, received, Delivers, capacity, extra_size}
use cc_server.Channel.{Channel, Events}
use cc_server.Channel.Dispatch.{Callbacks, call_if, handle_event, handle_event_with_guard}
use cc_server.Epoll.{EpollKernel}
use cc_server.EventLoop.{EventFd}
use cc_server.TcpConnection.{
  Connection, WriteResult, channel, is_disconnected, handle_read, handle_write, handle_close,
}
use cc_server.TcpConnection.Invariant.{Inv}
use cc_server.TcpConnection.Output.{Takes}
use cc_server.TcpConnection.Drain.{handle_write_lem}
use cc_server.TcpConnection.Close.{Closed, handle_close_lem}
use cc_server.TcpConnection.Input.{Reads, handle_read-Reads}
use cc_server.TcpConnection.Dispatch.{callbacks, dispatch, handle_error}

-- When the close callback is called, and when the read callback is.
abbrev pub is_hangup : Events → Bool
is_hangup r = r.epoll_hup && not r.epoll_in

abbrev pub is_input : Events → Bool
is_input r = r.epoll_in || r.epoll_pri || r.epoll_rdhup

-- A callback that is called goes through, and one that is not leaves the state.
call_if_lem {ℓ κ} :
    {S : Type ℓ} (b : Bool) (f : S → Outcome S) (s : S) (Q : S → Type κ)
    → (b ≡ true → (t : S) × (f s ≡ ok t) × Q t)
    → (b ≡ false → Q s)
    → (t : S) × (call_if b (some f) s ≡ ok t) × Q t
call_if_lem true f s Q called left = called refl
call_if_lem false f s Q called left = (s, refl, left refl)

call_if_ok {ℓ} :
    {S : Type ℓ} (b : Bool) (f : S → Outcome S) (s : S) → f s ≡ ok s → call_if b (some f) s ≡ ok s
call_if_ok true f s e = e
call_if_ok false f s e = refl

-- Tied or not, the channel of an object that is alive calls back.
tied_or_not {ℓ} :
    {S : Type ℓ} (cb : Callbacks S) (s : S) {t : S} (c : Channel)
    → handle_event_with_guard cb c.revents s ≡ ok t
    → handle_event cb true c s ≡ ok t
unfolding handle_event
tied_or_not cb s c e = elim (Bool-cases c.tied) [ inl y ↦ rw y e | inr n ↦ rw n e ]

bind_ok {ℓ κ} :
    {A : Type ℓ} {B : Type κ} {m : Outcome A} {a : A} {o : Outcome B} (f : A → Outcome B)
    → m ≡ ok a
    → f a ≡ o
    → (m >>= f) ≡ o
bind_ok f e e' = ap (λ x. x >>= f) e ∙ e'

module _ (epoll : EpollKernel) (eventfd : EventFd) where
  -- The connection ended, is polled no more and its close callback ran once, or none of it.
  abbrev pub Ends : Connection epoll eventfd → Connection epoll eventfd → Type 0
  Ends c d =
      ((is_disconnected d.state ≡ true)
        × (d.closes ≡ c.closes + 1)
        × ((channel epoll eventfd d).polling ≡ false))
      ⊎ ((is_disconnected d.state ≡ false) × (d.closes ≡ c.closes))

  -- The state after the first callbacks: the connection ended, or its output is as before.
  record Goes (c d : Connection epoll eventfd) : Type 0 where
    inv : Inv epoll eventfd d
    output :
        ((is_disconnected d.state ≡ true)
          × (d.closes ≡ c.closes + 1)
          × ((channel epoll eventfd d).polling ≡ false))
        ⊎ ((is_disconnected d.state ≡ false)
            × (d.closes ≡ c.closes)
            × (d.output_buffer ≡ c.output_buffer)
            × (channel epoll eventfd d ≡ channel epoll eventfd c))

  Closed-Goes :
      (c d e : Connection epoll eventfd) → d.closes ≡ c.closes → Closed epoll eventfd d e → Goes c e
  Closed-Goes c d e same k = record {
    inv = k.inv;
    output = inl (ap is_disconnected k.state, omega (arith, k.closes), k.unpolled);
  }

  Reads-Goes :
      (callback : Buffer → Outcome Buffer) (c : Connection epoll eventfd) (r : ReadResult)
      (o : Outcome (Connection epoll eventfd))
      → Inv epoll eventfd c
      → is_disconnected c.state ≡ false
      → Reads epoll eventfd callback c r o
      → (d : Connection epoll eventfd) × (o ≡ ok d) × Goes c d
  Reads-Goes callback c (failed n) o v up e =
      (c, e, record { inv = v; output = inr (up, refl, refl, refl) })
  Reads-Goes callback c (received []) o v up (b, d, e, all, k) =
      (d, e, Closed-Goes c (record c { input_buffer = b }) d refl k)
  Reads-Goes callback c (received (x ∷ xs)) o v up (b, b', all, called, e, w) = (
    record c { input_buffer = b'; messages = c.messages + 1 },
    e,
    record { inv = w; output = inr (up, refl, refl, refl) },
  )

  -- The write callback after the others.
  write-Goes :
      (answer : WriteResult) (c d : Connection epoll eventfd)
      → Goes c d
      → (channel epoll eventfd c).events.epoll_out ≡ true
      → Takes answer (contents c.output_buffer)
      → (e : Connection epoll eventfd) × (handle_write epoll eventfd answer d ≡ ok e)
        × (Inv epoll eventfd e × Ends c e)
  unfolding handle_write
  write-Goes answer c d g out fits = elim g.output [
    | inl (ended, closed, unpolled) ↦
        (d, ground (arith, ended), (g.inv, inl (ended, closed, unpolled)))
    | inr (up, open_still, same, ch) ↦
        let (e, eq, w) =
          handle_write_lem epoll eventfd answer d g.inv up (ap (λ x. x.events.epoll_out) ch ∙ out)
            (rw same fits) in
        (e, eq, (w.inv, inr (ap is_disconnected w.same_state ∙ up, w.same_closes ∙ open_still)))
  ]

  Goes-Ends : (c d : Connection epoll eventfd) → Goes c d → Ends c d
  Goes-Ends c d g = elim g.output [
    | inl ended ↦ inl ended
    | inr (up, closes, same, ch) ↦ inr (up, closes)
  ]

  -- `handleEvent` of an open connection goes through and keeps the invariant, and calls the close
  -- callback once if it ends the connection and not otherwise, whatever the kernel reports and answers, unless it reports a hang-up with urgent data or a half-close and without
  -- input. Assumed: the object is alive, EPOLLOUT is reported only where it was asked for, read(2)
  -- and write(2) deliver and take no more than they are given, the input buffer can grow by 64 KiB,
  -- and the message callback leaves a valid buffer.
  pub dispatch_lem :
      (readv : ℕ → ReadResult) (callback : Buffer → Outcome Buffer) (answer : WriteResult)
      (c : Connection epoll eventfd)
      → ((b : Buffer) → IsValid b → (b' : Buffer) × (callback b ≡ ok b') × IsValid b')
      → Inv epoll eventfd c
      → is_disconnected c.state ≡ false
      → Delivers
          (readv (capacity (writable_bytes c.input_buffer)))
          (capacity (writable_bytes c.input_buffer))
      → length c.input_buffer.bytes + extra_size ≤ max_size
      → Takes answer (contents c.output_buffer)
      → ((channel epoll eventfd c).revents.epoll_out ≡ false)
        ⊎ ((channel epoll eventfd c).events.epoll_out ≡ true)
      → is_hangup (channel epoll eventfd c).revents && is_input (channel epoll eventfd c).revents
        ≡ false
      → (d : Connection epoll eventfd) × (dispatch epoll eventfd readv callback answer true c
          ≡ ok d)
        × Inv epoll eventfd d
        × Ends c d
  unfolding dispatch callbacks handle_event handle_event_with_guard handle_error
  dispatch_lem readv callback answer c cb v up delivers room takes asked clean =
      let r = (channel epoll eventfd c).revents in
      let (c₁, e₁, one) =
        call_if_lem (is_hangup r) (handle_close epoll eventfd) c
          (λ d. Goes c d × (is_input r ≡ true → d ≡ c))
          (λ hup.
            let (d, e, k) = handle_close_lem epoll eventfd c v up in
            (d, e, (Closed-Goes c c d refl k, λ input. absurd (ground (arith, hup, input, clean)))))
          (λ quiet. (record { inv = v; output = inr (up, refl, refl, refl) }, λ input. refl)) in
      let (c₂, e₂, two) =
        call_if_lem (is_input r) (handle_read epoll eventfd readv callback) c₁ (Goes c)
          (λ input. rw (one.1 input) (
            Reads-Goes callback c (readv (capacity (writable_bytes c.input_buffer)))
              (handle_read epoll eventfd readv callback c) v up
              (handle_read-Reads epoll eventfd readv callback c cb v up delivers room)))
          (λ quiet. one.0) in
      let (c₃, e₃, three) =
        call_if_lem r.epoll_out (handle_write epoll eventfd answer) c₂
          (λ d. Inv epoll eventfd d × Ends c d)
          (λ out.
            write-Goes answer c c₂ two
              (elim asked [ inl no_out ↦ absurd (ground (arith, out, no_out)) | inr e ↦ e ]) takes)
          (λ quiet. (two.inv, Goes-Ends c c₂ two)) in
      let quiet_error = call_if_ok r.epoll_err (handle_error epoll eventfd) c₁ refl in
      let guarded : handle_event_with_guard (callbacks epoll eventfd readv callback answer) r c
          ≡ ok c₃ =
        bind_ok _ e₁ (bind_ok _ quiet_error (bind_ok _ e₂ e₃)) in
      (
        c₃,
        tied_or_not (callbacks epoll eventfd readv callback answer) c (channel epoll eventfd c)
            guarded,
        three.0,
        three.1,
      )

  -- A hang-up that is reported with urgent data or a half-close, and without input, closes an open
  -- connection and then reads from it, which fails an assertion.
  pub hangup-aborts :
      (readv : ℕ → ReadResult) (callback : Buffer → Outcome Buffer) (answer : WriteResult)
      (c : Connection epoll eventfd)
      → Inv epoll eventfd c
      → is_disconnected c.state ≡ false
      → is_hangup (channel epoll eventfd c).revents ≡ true
      → is_input (channel epoll eventfd c).revents ≡ true
      → dispatch epoll eventfd readv callback answer true c ≡ aborts
  unfolding dispatch callbacks handle_event handle_event_with_guard handle_error handle_read
  hangup-aborts readv callback answer c v up hup input =
      let (d, e, k) = handle_close_lem epoll eventfd c v up in
      ground (arith, hup, input, e, k.state)
