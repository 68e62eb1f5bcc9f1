-- ===== src/TcpConnection/Input.antt =====
-- `handleRead`: bytes, the end of the stream, or an error (TcpConnection.cpp: handleRead, stopRead).
use cc_server.Prelude.{
  ap, ◌∙◌, ℕ, ◌+◌, ◌≤◌, true, false, not, ◌≡◌, inl, inr, refl, [], ◌∷◌, ◌++◌, arith, length,
  append-nil, Bool-cases,
}
use cc_server.Prelude.Outcome.{Outcome, ok, ◌>>=◌}
use cc_server.Buffer.{Buffer, max_size, writable_bytes}
use cc_server.Buffer.Invariant.{IsValid, contents}
use cc_server.Buffer.ReadFd.{
  ReadResult, failed, received, ReadFd, read_fd, Delivers, capacity, extra_size, Meets,
  read_fd-Meets,
}
use cc_server.Channel.{disable_read, change_events, is_zero}
use cc_server.Epoll.{EpollKernel}
use cc_server.EventLoop.{EventFd}
use cc_server.TcpConnection.{
  Connection, channel, is_disconnected, after_read, handle_read, stop_read,
}
use cc_server.TcpConnection.Invariant.{Inv, set_channel_ok, Changed-Inv}
use cc_server.TcpConnection.Close.{Closed, handle_close_lem}

module _ (epoll : EpollKernel) (eventfd : EventFd) where
  -- What `handleRead` comes to for an answer of the kernel: an error changes nothing, the end of the
  -- stream closes the connection, and bytes are given to the message callback behind those that
  -- earlier calls left.
  abbrev pub Reads :
      (Buffer → Outcome Buffer)
      → Connection epoll eventfd
      → ReadResult
      → Outcome (Connection epoll eventfd)
      → Type 0
  Reads callback c (failed e) o = o ≡ ok c
  Reads callback c (received []) o =
      (b : Buffer) × (c' : Connection epoll eventfd) × (o ≡ ok c')
      × (contents b ≡ contents c.input_buffer)
      × Closed epoll eventfd (record c { input_buffer = b }) c'
  Reads callback c (received (x ∷ xs)) o =
      (b : Buffer) × (b' : Buffer) × (contents b ≡ contents c.input_buffer ++ (x ∷ xs))
      × (callback b ≡ ok b')
      × (o ≡ ok (record c { input_buffer = b'; messages = c.messages + 1 }))
      × Inv epoll eventfd (record c { input_buffer = b'; messages = c.messages + 1 })

  input-Inv :
      (c : Connection epoll eventfd) (b : Buffer) (n : ℕ)
      → Inv epoll eventfd c
      → IsValid b
      → Inv epoll eventfd (record c { input_buffer = b; messages = n })
  input-Inv c b n v w = record {
    in_sync = v.in_sync;
    input = w;
    output = v.output;
    established = v.established;
    urgent = v.urgent;
    writing = v.writing;
  }

  Reads-Meets :
      (callback : Buffer → Outcome Buffer) (c : Connection epoll eventfd) (r : ReadResult)
      (o : Outcome ReadFd)
      → ((b : Buffer) → IsValid b → (b' : Buffer) × (callback b ≡ ok b') × IsValid b')
      → Inv epoll eventfd c
      → is_disconnected c.state ≡ false
      → Meets c.input_buffer r o
      → Reads callback c r (
          o >>= λ x.
          after_read epoll eventfd callback x.count (record c { input_buffer = x.buffer }))
  unfolding after_read
  Reads-Meets callback c (failed e) o cb v up m = rw m refl
  Reads-Meets callback c (received []) o cb v up (b, m, valid, all) =
      let c₁ : Connection epoll eventfd = record c { input_buffer = b } in
      let (c', e, closed) =
        handle_close_lem epoll eventfd c₁ (input-Inv c b c.messages v valid) up in
      (b, c', rw m e, all ∙ append-nil (contents c.input_buffer), closed)
  Reads-Meets callback c (received (x ∷ xs)) o cb v up (b, m, valid, all) =
      let (b', e, valid') = cb b valid in
      (b, b', all, e, rw m (ground (arith, e)), input-Inv c b' (c.messages + 1) v valid')

  -- `handleRead` on an open connection goes through without a failed assertion and does what
  -- `Reads` says for the kernel's answer. Assumed: readv(2) delivers no more than it is offered,
  -- the input buffer can grow by 64 KiB, and the message callback leaves a valid buffer.
  pub handle_read-Reads :
      (readv : ℕ → ReadResult) (callback : Buffer → Outcome Buffer) (c : Connection epoll eventfd)
      → ((b : Buffer) → IsValid b → (b' : Buffer) × (callback b ≡ ok b') × IsValid b')
      → Inv epoll eventfd c
      → is_disconnected c.state ≡ false
      → Delivers
          (readv (capacity (writable_bytes c.input_buffer)))
          (capacity (writable_bytes c.input_buffer))
      → length c.input_buffer.bytes + extra_size ≤ max_size
      → Reads callback c
          (readv (capacity (writable_bytes c.input_buffer)))
          (handle_read epoll eventfd readv callback c)
  unfolding handle_read
  handle_read-Reads readv callback c cb v up fits room = rw up (
      Reads-Meets callback c (readv (capacity (writable_bytes c.input_buffer)))
        (read_fd readv c.input_buffer) cb v up
        (read_fd-Meets readv c.input_buffer v.input fits room))

  -- `stopRead` on an open connection stops EPOLLIN alone: the channel stays registered, for urgent
  -- data at least.
  pub stop_read_lem :
      (c : Connection epoll eventfd)
      → Inv epoll eventfd c
      → is_disconnected c.state ≡ false
      → (c' : Connection epoll eventfd) × (stop_read epoll eventfd c ≡ ok c')
        × Inv epoll eventfd c'
        × ((channel epoll eventfd c').events.epoll_in ≡ false)
        × ((channel epoll eventfd c').events.epoll_pri ≡ true)
        × ((channel epoll eventfd c').polling ≡ true)
  unfolding stop_read change_events is_zero
  stop_read_lem c v up = elim (Bool-cases (channel epoll eventfd c).events.epoll_in) [
    | inr off ↦ (
      c,
      ground (arith, off),
      v,
      off,
      v.urgent up,
      v.in_sync.polled c.fd ∙ ground (arith, v.urgent up),
    )
    | inl on ↦
        let (p, e, changed) = set_channel_ok epoll eventfd disable_read c v.in_sync (v.urgent up) in
        (
          record c { poller = p },
          ground (arith, on, e),
          Changed-Inv epoll eventfd disable_read c p changed v.input v.output v.established
              (λ _. (v.urgent up, v.writing up)),
          ap (λ x. x.epoll_in) changed.here,
          ap (λ x. x.epoll_pri) changed.here ∙ v.urgent up,
          changed.in_sync.polled c.fd
              ∙ ap (λ x. not (is_zero x)) changed.here
              ∙ ground (arith, v.urgent up),
        )
  ]
