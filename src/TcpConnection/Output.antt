-- ===== src/TcpConnection/Output.antt =====
-- What is sent: the bytes written at once, those kept in the output buffer, and those that
-- `handleWrite` writes later (TcpConnection.cpp: sendInLoop, handleWrite).
use cc_server.Prelude.{
  ap, sym, ◌∙◌, ℕ, ◌+◌, ◌≤◌, ◌<◌, Bool, true, false, not, ◌≡◌, inl, inr, refl, ◌&&◌, List, [], ◌∷◌,
  ◌++◌, arith, if◌then◌else◌, length, take, drop, Bool-cases, length-append, take-append-drop,
  append_assoc, append-nil, length-drop,
}
use cc_server.Prelude.Outcome.{ok}
use cc_server.Buffer.{max_size}
use cc_server.Buffer.Invariant.{contents, length-contents, readable_bytes-eq}
use cc_server.Buffer.Write.{append_lem}
use cc_server.Channel.{enable_write, change_events}
use cc_server.Epoll.{EpollKernel}
use cc_server.EventLoop.{EventFd}
use cc_server.TcpConnection.{
  Connection, channel, is_disconnected, WriteResult, wrote, write_failed, is_fault, Errno,
  write_now, note_high_water, keep_rest, send_in_loop,
}
use cc_server.TcpConnection.Invariant.{Inv, set_channel_ok, Changed-Inv, Inv-same}

-- write(2) takes no more than it is given.
abbrev pub Takes : WriteResult → List ℕ → Type 0
Takes (wrote n) source = n ≤ length source
Takes (write_failed e) source = Unit {0}

abbrev pub faults : WriteResult → Bool
faults (wrote n) = false
faults (write_failed e) = is_fault e

pub length_zero : (xs : List ℕ) → length xs ≡ 0 → xs ≡ []
length_zero [] h = refl
length_zero (x ∷ xs) h = absurd (omega arith)

module _ (epoll : EpollKernel) (eventfd : EventFd) where
  -- All that the connection has taken to send, in order.
  abbrev pub stream : Connection epoll eventfd → List ℕ
  stream c = c.sent ++ contents c.output_buffer

  -- What `sendInLoop` has done with bytes that it kept.
  record Kept (c : Connection epoll eventfd) (rest : List ℕ) (c' : Connection epoll eventfd)
      : Type 0 where
    inv : Inv epoll eventfd c'
    same_state : c'.state ≡ c.state
    stream_grows : stream c' ≡ stream c ++ rest

  keep_rest_nil :
      (c : Connection epoll eventfd) (rest : List ℕ)
      → length rest ≡ 0
      → keep_rest epoll eventfd rest false c ≡ ok c
  unfolding keep_rest
  keep_rest_nil c rest h = ground arith

  keep_rest_lem :
      (c : Connection epoll eventfd) (rest : List ℕ)
      → Inv epoll eventfd c
      → is_disconnected c.state ≡ false
      → c.output_buffer.writer_index + length rest ≤ max_size
      → 0 < length rest
      → (c' : Connection epoll eventfd) × (keep_rest epoll eventfd rest false c ≡ ok c')
        × Kept c rest c'
  unfolding keep_rest change_events
  keep_rest_lem c rest v up room some_left =
      let (b, e, valid, all, _) = append_lem c.output_buffer rest v.output room in
      let c₁ : Connection epoll eventfd = record c {
        loop = note_high_water epoll eventfd (length rest) c;
        output_buffer = b;
      } in
      let (p, e', changed) = set_channel_ok epoll eventfd enable_write c₁ v.in_sync (v.urgent up) in
      (
        record c₁ { poller = p },
        ground (arith, e, e'),
        record {
          inv =
              Changed-Inv epoll eventfd enable_write c₁ p changed v.input valid v.established (λ _.
                (
                  ground (arith, v.urgent up),
                  ground (arith, ap length all, length-append (contents c.output_buffer) rest),
                ));
          same_state = refl;
          stream_grows =
              ap (λ l. c.sent ++ l) all ∙ sym (append_assoc c.sent (contents c.output_buffer) rest);
        },
      )

  keep_rest_any :
      (c : Connection epoll eventfd) (rest : List ℕ)
      → Inv epoll eventfd c
      → is_disconnected c.state ≡ false
      → c.output_buffer.writer_index + length rest ≤ max_size
      → (c' : Connection epoll eventfd) × (keep_rest epoll eventfd rest false c ≡ ok c')
        × Kept c rest c'
  keep_rest_any c [] v up room = (
    c,
    keep_rest_nil c [] refl,
    record { inv = v; same_state = refl; stream_grows = sym (append-nil (stream c)) },
  )
  keep_rest_any c (x ∷ xs) v up room = keep_rest_lem c (x ∷ xs) v up room (omega arith)

  -- The connection right after write(2) took `n` bytes.
  abbrev taken : ℕ → List ℕ → Connection epoll eventfd → Connection epoll eventfd
  taken n source c = (write_now epoll eventfd (wrote n) source c).0

  taken-Inv :
      (n : ℕ) (source : List ℕ) (c : Connection epoll eventfd)
      → Inv epoll eventfd c
      → Inv epoll eventfd (taken n source c)
  unfolding write_now
  taken-Inv n source c v =
      Inv-same epoll eventfd c (taken n source c) (ground arith) (ground arith) (ground arith)
        (ground arith) (ground arith) v

  taken_fields :
      (n : ℕ) (source : List ℕ) (c : Connection epoll eventfd)
      → ((taken n source c).state ≡ c.state)
        × ((taken n source c).output_buffer ≡ c.output_buffer)
        × ((taken n source c).sent ≡ c.sent ++ take n source)
        × (write_now epoll eventfd (wrote n) source c ≡ (taken n source c, drop n source, false))
  unfolding write_now
  taken_fields n source c = (ground arith, ground arith, ground arith, ground arith)

  taken-stream :
      (n : ℕ) (source : List ℕ) (c : Connection epoll eventfd)
      → contents c.output_buffer ≡ []
      → stream (taken n source c) ++ drop n source ≡ stream c ++ source
  taken-stream n source c empty =
      let (_, o, s, _) = taken_fields n source c in
      rw (s, o, empty)
        (ap (λ l. l ++ drop n source) (append-nil (c.sent ++ take n source))
          ∙ append_assoc c.sent (take n source) (drop n source)
          ∙ ap (λ l. c.sent ++ l) (take-append-drop n source)
          ∙ sym (ap (λ l. l ++ source) (append-nil c.sent)))

  write_now_failed :
      (e : Errno) (source : List ℕ) (c : Connection epoll eventfd)
      → write_now epoll eventfd (write_failed e) source c ≡ (c, source, is_fault e)
  unfolding write_now
  write_now_failed e source c = refl

  keep_rest_fault :
      (c : Connection epoll eventfd) (rest : List ℕ) → keep_rest epoll eventfd rest true c ≡ ok c
  unfolding keep_rest
  keep_rest_fault c rest = refl

  -- Whether `sendInLoop` gives the bytes up: on EPIPE or ECONNRESET from a direct write.
  abbrev pub gives_up : Connection epoll eventfd → WriteResult → Bool
  gives_up c answer = not (channel epoll eventfd c).events.epoll_out && faults answer

  send_now :
      (answer : WriteResult) (source : List ℕ) (c : Connection epoll eventfd)
      → Inv epoll eventfd c
      → is_disconnected c.state ≡ false
      → (channel epoll eventfd c).events.epoll_out ≡ false
      → Takes answer source
      → c.output_buffer.writer_index + length source ≤ max_size
      → (c' : Connection epoll eventfd) × (send_in_loop epoll eventfd answer source c ≡ ok c')
        × Kept c (if faults answer then [] else source) c'
  unfolding send_in_loop
  send_now (wrote n) source c v up idle fits room =
      let (s, o, b, w) = taken_fields n source c in
      let empty : contents c.output_buffer ≡ [] =
        length_zero (contents c.output_buffer) (ground (arith, v.writing up)) in
      let (c', e, k) =
        keep_rest_any (taken n source c) (drop n source) (taken-Inv n source c v) (rw s up)
          (omega (arith, length-drop n source, ap (λ x. x.writer_index) o)) in
      (
        c',
        ground (arith, readable_bytes-eq v.output, length-contents v.output, ap length empty, w, e),
        record {
          inv = k.inv;
          same_state = k.same_state ∙ s;
          stream_grows = k.stream_grows ∙ taken-stream n source c empty;
        },
      )
  send_now (write_failed e) source c v up idle fits room =
      let empty : contents c.output_buffer ≡ [] =
        length_zero (contents c.output_buffer) (ground (arith, v.writing up)) in
      let (c', q, k) = keep_rest_any c source v up room in
      elim (Bool-cases (is_fault e)) [
        | inl fault ↦ rw fault (
          c,
          ground (
            arith,
            fault,
            readable_bytes-eq v.output,
            length-contents v.output,
            ap length empty,
            keep_rest_fault c source,
            write_now_failed e source c,
          ),
          record { inv = v; same_state = refl; stream_grows = sym (append-nil (stream c)) },
        )
        | inr keeps ↦ rw keeps (
          c',
          ground (
            arith,
            keeps,
            readable_bytes-eq v.output,
            length-contents v.output,
            ap length empty,
            q,
            write_now_failed e source c,
          ),
          k,
        )
      ]

  -- `sendInLoop` on an open connection goes through without a failed assertion and keeps the
  -- invariant. The bytes handed over stand in order behind all that was sent before, written or
  -- kept; only a direct write that fails by EPIPE or ECONNRESET gives them up. Assumed: write(2)
  -- takes no more than it is given, and the bytes fit the output buffer's vector.
  pub send_in_loop_lem :
      (answer : WriteResult) (source : List ℕ) (c : Connection epoll eventfd)
      → Inv epoll eventfd c
      → is_disconnected c.state ≡ false
      → Takes answer source
      → c.output_buffer.writer_index + length source ≤ max_size
      → (c' : Connection epoll eventfd) × (send_in_loop epoll eventfd answer source c ≡ ok c')
        × Inv epoll eventfd c'
        × (c'.state ≡ c.state)
        × (stream c' ≡ stream c ++ (if gives_up c answer then [] else source))
  unfolding send_in_loop
  send_in_loop_lem answer source c v up fits room =
      elim (Bool-cases (channel epoll eventfd c).events.epoll_out) [
        | inl busy ↦
            let (c', e, k) = keep_rest_any c source v up room in
            (c', ground (arith, e), k.inv, k.same_state, rw busy k.stream_grows)
        | inr idle ↦
            let (c', e, k) = send_now answer source c v up idle fits room in
            (c', e, k.inv, k.same_state, rw idle k.stream_grows)
      ]
