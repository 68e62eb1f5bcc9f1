-- ===== src/TcpConnection/Flush.antt =====
-- An output buffer that is written out over several reports of the poller (TcpConnection.cpp:
-- handleWrite).
use cc_server.Prelude.{
  ap, ◌∙◌, sym, ℕ, zero, suc, ◌-◌, ◌≤◌, ◌<◌, true, false, ◌≡◌, refl, List, [], ◌++◌, arith, length,
  length-append, length-take, take, append-nil, ◌==◌, Bool-cases, inl, inr,
}
use cc_server.Prelude.Outcome.{Outcome, ok, ◌>>=◌, both-ok}
use cc_server.Buffer.{retrieve, readable_bytes}
use cc_server.Buffer.Invariant.{contents, length-contents, readable_bytes-eq, copy_from_ok}
use cc_server.Channel.{is_writing}
use cc_server.Epoll.{EpollKernel}
use cc_server.EventLoop.{EventFd}
use cc_server.TcpConnection.{
  Connection, channel, first_of, is_disconnected, is_disconnecting, WriteResult, wrote,
  output_drained, after_write, handle_write,
}
use cc_server.TcpConnection.Invariant.{Inv, has_bytes}
use cc_server.TcpConnection.Output.{stream, length_zero}
use cc_server.TcpConnection.Drain.{Written, handle_write_lem}

module _ (epoll : EpollKernel) (eventfd : EventFd) where
  output_drained-sent :
      (c d : Connection epoll eventfd) → output_drained epoll eventfd c ≡ ok d → d.sent ≡ c.sent
  unfolding output_drained
  output_drained-sent c d e = ground (arith, e)

  after_write-sent :
      (n : ℕ) (held : List ℕ) (c d : Connection epoll eventfd)
      → after_write epoll eventfd (wrote n) held c ≡ ok d
      → d.sent ≡ c.sent ++ take n held
  unfolding after_write
  after_write-sent n held c d e =
      let (b, rest, call) = both-ok _ (retrieve c.output_buffer n) (sym e) in
      let c' : Connection epoll eventfd = record c {
        output_buffer = b;
        sent = c.sent ++ take n held;
      } in
      elim (Bool-cases (readable_bytes b == 0)) [
        | inl empty ↦ output_drained-sent c' d (ground (arith, e, call, empty))
        | inr more ↦ ground (arith, e, call, more)
      ]

  -- The bytes that write(2) took are those in front.
  handle_write-sent :
      (n : ℕ) (c d : Connection epoll eventfd)
      → Inv epoll eventfd c
      → is_disconnected c.state ≡ false
      → (channel epoll eventfd c).events.epoll_out ≡ true
      → handle_write epoll eventfd (wrote n) c ≡ ok d
      → d.sent ≡ c.sent ++ take n (contents c.output_buffer)
  unfolding handle_write
  handle_write-sent n c d v up busy e = after_write-sent n (contents c.output_buffer) c d (
      ground (
        arith,
        e,
        readable_bytes-eq v.output,
        length-contents v.output,
        v.writing up,
        copy_from_ok c.output_buffer.reader_index
            (c.output_buffer.writer_index - c.output_buffer.reader_index) c.output_buffer.bytes,
      ))

  -- The reports of the poller while the connection waits to write, at most so many: `kernel` is what
  -- write(2) answers for the bytes held.
  unfoldable pub flush :
      (List ℕ → WriteResult) → ℕ → Connection epoll eventfd → Outcome (Connection epoll eventfd)
  flush kernel zero c = ok c
  flush kernel (suc reports) c = elim (is_writing (channel epoll eventfd c)) [
    | true ↦ (do
      d ← handle_write epoll eventfd (kernel (contents c.output_buffer)) c
      flush kernel reports d)
    | false ↦ ok c
  ]

  -- A socket that takes at least a byte whenever it is reported as writable.
  abbrev pub Serves : (List ℕ → WriteResult) → Type 0
  Serves kernel =
      (held : List ℕ)
      → 0 < length held
      → (n : ℕ) × (kernel held ≡ wrote n) × (0 < n) × (n ≤ length held)

  -- What is left of a connection whose output was written out.
  pub record Flushed (c c' : Connection epoll eventfd) : Type 0 where
    pub inv : Inv epoll eventfd c'
    pub same_state : c'.state ≡ c.state
    pub same_closes : c'.closes ≡ c.closes
    pub empty : contents c'.output_buffer ≡ []
    pub all_sent : c'.sent ≡ stream epoll eventfd c
    pub half_closed :
        has_bytes c.output_buffer ≡ true → is_disconnecting c.state ≡ true → c'.shut_down ≡ true
    pub behind :
        has_bytes c.output_buffer ≡ true
        → is_disconnecting c.state ≡ true
        → c'.closed_after ≡ first_of c.closed_after c'.sent

  pub flush_idle :
      (kernel : List ℕ → WriteResult) (reports : ℕ) (c : Connection epoll eventfd)
      → (channel epoll eventfd c).events.epoll_out ≡ false
      → flush kernel reports c ≡ ok c
  unfolding flush is_writing
  flush_idle kernel zero c idle = refl
  flush_idle kernel (suc reports) c idle = ground (arith, idle)

  flush_busy :
      (kernel : List ℕ → WriteResult) (reports : ℕ) (c d : Connection epoll eventfd)
      → (channel epoll eventfd c).events.epoll_out ≡ true
      → handle_write epoll eventfd (kernel (contents c.output_buffer)) c ≡ ok d
      → flush kernel (suc reports) c ≡ flush kernel reports d
  unfolding flush is_writing
  flush_busy kernel reports c d busy e = ground (arith, busy, e)

  nothing_left :
      (c : Connection epoll eventfd)
      → Inv epoll eventfd c
      → has_bytes c.output_buffer ≡ false
      → Flushed c c
  nothing_left c v none_left =
      let empty = length_zero (contents c.output_buffer) (ground (arith, none_left)) in
      record {
        inv = v;
        same_state = refl;
        same_closes = refl;
        empty = empty;
        all_sent = sym (ap (λ l. c.sent ++ l) empty ∙ append-nil c.sent);
        half_closed = λ some_left d. cc;
        behind = λ some_left d. cc;
      }

  Written-Flushed :
      (c d c' : Connection epoll eventfd)
      → Written epoll eventfd c d
      → Flushed d c'
      → (is_disconnecting c.state ≡ true → c'.shut_down ≡ true)
      → (is_disconnecting c.state ≡ true → c'.closed_after ≡ first_of c.closed_after c'.sent)
      → Flushed c c'
  Written-Flushed c d c' w f half_closed behind = record {
    inv = f.inv;
    same_state = f.same_state ∙ w.same_state;
    same_closes = f.same_closes ∙ w.same_closes;
    empty = f.empty;
    all_sent = f.all_sent ∙ w.same_stream;
    half_closed = λ some_left. half_closed;
    behind = λ some_left. behind;
  }

  -- One report takes at least a byte out of the buffer.
  report_lem :
      (kernel : List ℕ → WriteResult) (c : Connection epoll eventfd)
      → Serves kernel
      → Inv epoll eventfd c
      → is_disconnected c.state ≡ false
      → has_bytes c.output_buffer ≡ true
      → (d : Connection epoll eventfd) × (handle_write epoll eventfd
            (kernel (contents c.output_buffer))
            c
          ≡ ok d)
        × Written epoll eventfd c d
        × (length (contents d.output_buffer) < length (contents c.output_buffer))
  report_lem kernel c serves v up some_left =
      let (n, answer, some_bytes, no_more) =
        serves (contents c.output_buffer) (ground (arith, some_left)) in
      let (d, e, w) =
        handle_write_lem epoll eventfd (wrote n) c v up (v.writing up ∙ some_left) no_more in
      let taken = handle_write-sent n c d v up (v.writing up ∙ some_left) e in
      (
        d,
        rw answer e,
        w,
        omega (
          arith,
          ap length w.same_stream,
          ap length taken,
          length-append d.sent (contents d.output_buffer),
          length-append c.sent (contents c.output_buffer),
          length-append c.sent (take n (contents c.output_buffer)),
          length-take n (contents c.output_buffer),
        ),
      )

  -- From an open connection, as many reports as there are bytes in the output buffer write them all
  -- out in order behind those sent before, pass every assertion, keep the invariant and the state,
  -- and close a disconnecting connection for writing behind them. Assumed: write(2) takes at least one byte, and
  -- no more than it is given, whenever the socket was reported as writable.
  pub flush_lem :
      (kernel : List ℕ → WriteResult) (reports : ℕ) (c : Connection epoll eventfd)
      → Serves kernel
      → Inv epoll eventfd c
      → is_disconnected c.state ≡ false
      → length (contents c.output_buffer) ≤ reports
      → (c' : Connection epoll eventfd) × (flush kernel reports c ≡ ok c') × Flushed c c'
  flush_lem kernel zero c serves v up enough =
      let none_left : has_bytes c.output_buffer ≡ false = ground arith in
      (c, flush_idle kernel 0 c (v.writing up ∙ none_left), nothing_left c v none_left)
  flush_lem kernel (suc reports) c serves v up enough =
      elim (Bool-cases (has_bytes c.output_buffer)) [
        | inr none_left ↦ (
          c,
          flush_idle kernel (suc reports) c (v.writing up ∙ none_left),
          nothing_left c v none_left,
        )
        | inl some_left ↦
            let (d, e, w, less) = report_lem kernel c serves v up some_left in
            let up' = ap is_disconnected w.same_state ∙ up in
            let (c', rest, f) = flush_lem kernel reports d serves w.inv up' (omega arith) in
            let more = flush_busy kernel reports c d (v.writing up ∙ some_left) e in
            elim (Bool-cases (has_bytes d.output_buffer)) [
              | inl waits ↦ (
                c',
                more ∙ rest,
                Written-Flushed c d c' w f
                    (λ down. f.half_closed waits (ap is_disconnecting w.same_state ∙ down))
                    (λ down.
                      f.behind waits (ap is_disconnecting w.same_state ∙ down)
                      ∙ ap (λ x. first_of x c'.sent) (w.not_yet (ground (arith, waits)))),
              )
              | inr done ↦
                  let g = nothing_left d w.inv done in
                  (
                    d,
                    more ∙ flush_idle kernel reports d (w.inv.writing up' ∙ done),
                    Written-Flushed c d d w g (λ down. w.half_closed g.empty down)
                        (λ down. w.behind g.empty down),
                  )
            ]
      ]
