-- ===== src/TcpConnection/Drain.antt =====
-- `handleWrite`: the output buffer is written out, and what happens once it is empty
-- (TcpConnection.cpp: handleWrite, shutdownInLoop).
use cc_server.Prelude.{
  ap, ◌∙◌, ℕ, ◌-◌, ◌<◌, true, false, ◌≡◌, refl, [], ◌++◌, arith, if◌then◌else◌, length, take, drop,
  take-append-drop, append_assoc, dec_lt,
}
use cc_server.Prelude.Outcome.{ok}
use cc_server.Buffer.{Buffer}
use cc_server.Buffer.Invariant.{IsValid, contents, length-contents, readable_bytes-eq, copy_from_ok}
use cc_server.Buffer.Read.{retrieve_lem}
use cc_server.Channel.{disable_write, change_events, is_writing}
use cc_server.Epoll.{EpollKernel}
use cc_server.Epoll.Sync.{InSync}
use cc_server.EventLoop.{EventFd}
use cc_server.TcpConnection.{
  queue, write_complete, ConnectionState, connecting, connected, disconnecting, disconnected,
  Connection, channel, is_disconnected, is_connecting, is_disconnecting, WriteResult, wrote,
  first_of, write_failed, output_drained, after_write, handle_write,
}
use cc_server.TcpConnection.Invariant.{Inv, set_channel_ok, Changed-Inv, Inv-same}
use cc_server.TcpConnection.Output.{Takes, stream, length_zero}

pub open_of_disconnecting :
    (s : ConnectionState) → is_disconnecting s ≡ true → is_disconnected s ≡ false
open_of_disconnecting disconnecting h = refl
open_of_disconnecting connecting h = refl
open_of_disconnecting connected h = refl
open_of_disconnecting disconnected h = cc

module _ (epoll : EpollKernel) (eventfd : EventFd) where
  -- What `handleWrite` has done.
  pub record Written (c c' : Connection epoll eventfd) : Type 0 where
    pub inv : Inv epoll eventfd c'
    pub same_state : c'.state ≡ c.state
    pub same_closes : c'.closes ≡ c.closes
    pub same_stream : stream epoll eventfd c' ≡ stream epoll eventfd c
    pub half_closed :
        contents c'.output_buffer ≡ [] → is_disconnecting c.state ≡ true → c'.shut_down ≡ true
    pub not_yet : 0 < length (contents c'.output_buffer) → c'.closed_after ≡ c.closed_after
    pub behind :
        contents c'.output_buffer ≡ []
        → is_disconnecting c.state ≡ true
        → c'.closed_after ≡ first_of c.closed_after c'.sent
    pub not_closed :
        is_disconnecting c.state ≡ false
        → (c'.closed_after ≡ c.closed_after) × (c'.shut_down ≡ c.shut_down)

  output_drained_lem :
      (c : Connection epoll eventfd)
      → InSync epoll c.poller
      → IsValid c.input_buffer
      → IsValid c.output_buffer
      → is_connecting c.state ≡ false
      → is_disconnected c.state ≡ false
      → (channel epoll eventfd c).events.epoll_pri ≡ true
      → contents c.output_buffer ≡ []
      → (c' : Connection epoll eventfd) × (output_drained epoll eventfd c ≡ ok c') × Written c c'
  unfolding output_drained change_events is_writing
  output_drained_lem c s i o est up pri empty =
      let (p, e, changed) = set_channel_ok epoll eventfd disable_write c s pri in
      let c₁ : Connection epoll eventfd = record c { poller = p } in
      let v : Inv epoll eventfd c₁ =
        Changed-Inv epoll eventfd disable_write c p changed i o est
          (λ _. (ground (arith, pri), ground (arith, ap length empty))) in
      let c₂ : Connection epoll eventfd =
        (if is_disconnecting c.state
          then record c₁ { shut_down = true; closed_after = first_of c.closed_after c.sent }
          else c₁) in
      let c₃ : Connection epoll eventfd =
        (if c.has_write_complete then queue epoll eventfd true write_complete c₂ else c₂) in
      (
        c₃,
        ground (arith, e, v.writing up, ap length empty),
        record {
          inv =
              Inv-same epoll eventfd c₁ c₃ (ground arith) (ground arith) (ground arith)
                (ground arith) (ground arith) v;
          same_state = ground arith;
          same_closes = ground arith;
          same_stream = ground arith;
          half_closed = λ _ d. ground (arith, d);
          not_yet = λ some_left. absurd (ground (arith, some_left, ap length empty));
          behind = λ _ d. ground (arith, d);
          not_closed = λ d. (ground (arith, d), ground (arith, d));
        },
      )

  -- The connection after `n` of the bytes held were taken and the others stay.
  abbrev rest_kept : ℕ → Buffer → Connection epoll eventfd → Connection epoll eventfd
  rest_kept n b c = record c {
    output_buffer = b;
    sent = c.sent ++ take n (contents c.output_buffer);
  }

  rest_kept-stream :
      (n : ℕ) (b : Buffer) (c : Connection epoll eventfd)
      → contents b ≡ drop n (contents c.output_buffer)
      → stream epoll eventfd (rest_kept n b c) ≡ stream epoll eventfd c
  rest_kept-stream n b c h =
      ap (λ l. (c.sent ++ take n (contents c.output_buffer)) ++ l) h
      ∙ append_assoc c.sent (take n (contents c.output_buffer)) (drop n (contents c.output_buffer))
      ∙ ap (λ l. c.sent ++ l) (take-append-drop n (contents c.output_buffer))

  after_write_lem :
      (answer : WriteResult) (c : Connection epoll eventfd)
      → Inv epoll eventfd c
      → is_disconnected c.state ≡ false
      → (channel epoll eventfd c).events.epoll_out ≡ true
      → Takes answer (contents c.output_buffer)
      → (c' : Connection epoll eventfd) × (after_write epoll eventfd answer
            (contents c.output_buffer)
            c
          ≡ ok c')
        × Written c c'
  unfolding after_write
  after_write_lem (write_failed e) c v up busy fits = (
    c,
    refl,
    record {
      inv = v;
      same_state = refl;
      same_closes = refl;
      same_stream = refl;
      half_closed = λ empty d. ground (arith, ap length empty, v.writing up);
      not_yet = λ some_left. refl;
      behind = λ empty d. absurd (ground (arith, ap length empty, v.writing up, busy));
      not_closed = λ d. (refl, refl);
    },
  )
  after_write_lem (wrote n) c v up busy fits =
      let (b, e, valid, left, _) = (retrieve_lem c.output_buffer n v.output).0 fits in
      let c₁ : Connection epoll eventfd = rest_kept n b c in
      elim (dec_lt 0 (length (contents b))) [
        | yes more ↦ (
          c₁,
          ground (arith, e, readable_bytes-eq valid, length-contents valid),
          record {
            inv = record {
              in_sync = v.in_sync;
              input = v.input;
              output = valid;
              established = v.established;
              urgent = v.urgent;
              writing = λ _. ground (arith, busy);
            };
            same_state = refl;
            same_closes = refl;
            same_stream = rest_kept-stream n b c left;
            half_closed = λ empty d. absurd (omega (arith, ap length empty));
            not_yet = λ some_left. refl;
            behind = λ empty d. absurd (omega (arith, ap length empty));
            not_closed = λ d. (refl, refl);
          },
        )
        | no none_left ↦
            let empty : contents b ≡ [] = length_zero (contents b) (omega arith) in
            let (c₂, e₂, w) =
              output_drained_lem c₁ v.in_sync v.input valid v.established up (v.urgent up) empty in
            (
              c₂,
              ground (arith, e, e₂, readable_bytes-eq valid, length-contents valid),
              record {
                inv = w.inv;
                same_state = w.same_state;
                same_closes = w.same_closes;
                same_stream = w.same_stream ∙ rest_kept-stream n b c left;
                half_closed = w.half_closed;
                not_yet = w.not_yet;
                behind = w.behind;
                not_closed = w.not_closed;
              },
            )
      ]

  -- When the poller reports an open connection as writable while output is waited for,
  -- `handleWrite` goes through without a failed assertion and keeps the invariant and the state. It
  -- neither loses nor reorders a byte: what was written and what is kept are together the same
  -- stream. A connection that is shutting down is closed for writing once nothing is kept, behind what
  -- was written, and none is before that or otherwise.
  -- Assumed: write(2) takes no more than it is given.
  pub handle_write_lem :
      (answer : WriteResult) (c : Connection epoll eventfd)
      → Inv epoll eventfd c
      → is_disconnected c.state ≡ false
      → (channel epoll eventfd c).events.epoll_out ≡ true
      → Takes answer (contents c.output_buffer)
      → (c' : Connection epoll eventfd) × (handle_write epoll eventfd answer c ≡ ok c')
        × Written c c'
  unfolding handle_write
  handle_write_lem answer c v up busy fits =
      let (c', e, w) = after_write_lem answer c v up busy fits in
      (
        c',
        ground (
          arith,
          e,
          readable_bytes-eq v.output,
          length-contents v.output,
          v.writing up,
          copy_from_ok c.output_buffer.reader_index
              (c.output_buffer.writer_index - c.output_buffer.reader_index) c.output_buffer.bytes,
        ),
        w,
      )
