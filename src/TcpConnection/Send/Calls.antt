-- ===== src/TcpConnection/Send/Calls.antt =====
-- The calls of a connection's user and the deferred tasks keep the invariant (TcpConnection.cpp).
use cc_server.Prelude.{
  ℕ, ◌+◌, ◌≤◌, Bool, false, ◌≡◌, refl, inl, inr, List, arith, length, Bool-cases,
}
use cc_server.Prelude.Outcome.{Outcome, ok, ◌>>=◌}
use cc_server.Buffer.{Buffer, max_size}
use cc_server.Buffer.Invariant.{IsValid, contents}
use cc_server.Channel.{enable_read, change_events, is_zero}
use cc_server.Epoll.{EpollKernel}
use cc_server.EventLoop.{EventFd}
use cc_server.TcpConnection.{
  Connection, Deferred, write_complete, high_water, send_later, shutdown_later, force_close_later,
  WriteResult, channel, is_connected, is_disconnected, disconnecting, queue, send, shutdown,
  shutdown_in_loop, force_close, force_close_in_loop, stop_read, start_read, send_in_loop,
}
use cc_server.TcpConnection.Invariant.{Inv, set_channel_ok, Changed-Inv, Inv-same}
use cc_server.TcpConnection.Output.{Takes, send_in_loop_lem}
use cc_server.TcpConnection.Close.{handle_close_lem}
use cc_server.TcpConnection.Input.{stop_read_lem}
use cc_server.TcpConnection.Send.{send_buffer, send_message, send_view, run_deferred}
use cc_server.TcpConnection.Send.Laws.{send_buffer_lem}

-- What a user can call, from the loop's thread or another, and what the loop runs for it.
pub data Call : Type 0 where
  sends : Bool → WriteResult → List ℕ → Call
  sends_buffer : Bool → WriteResult → Buffer → Call
  shuts_down : Bool → Call
  forces_close : Bool → Call
  stops_reading starts_reading : Call
  runs : WriteResult → Deferred → Call

module _ (epoll : EpollKernel) (eventfd : EventFd) where
  unfoldable pub perform : Call → Connection epoll eventfd → Outcome (Connection epoll eventfd)
  perform (sends in_thread answer text) c = send_view epoll eventfd in_thread answer text c
  perform (sends_buffer in_thread answer b) c = do
    (b', c') ← send_buffer epoll eventfd in_thread answer b c
    ok c'
  perform (shuts_down in_thread) c = shutdown epoll eventfd in_thread c
  perform (forces_close in_thread) c = ok (force_close epoll eventfd in_thread c)
  perform stops_reading c = stop_read epoll eventfd c
  perform starts_reading c = start_read epoll eventfd c
  perform (runs answer task) c = run_deferred epoll eventfd answer task c

  -- write(2) takes no more than it is given, and the bytes fit the vector of the output buffer.
  abbrev pub Sendable : WriteResult → List ℕ → Connection epoll eventfd → Type 0
  Sendable answer text c =
      Takes answer text × (c.output_buffer.writer_index + length text ≤ max_size)

  -- What each call asks for.
  abbrev pub Fits : Call → Connection epoll eventfd → Type 0
  Fits (sends in_thread answer text) c = Sendable answer text c
  Fits (sends_buffer in_thread answer b) c = IsValid b × Sendable answer (contents b) c
  Fits (shuts_down in_thread) c = is_disconnected c.state ≡ false
  Fits (forces_close in_thread) c = Unit {0}
  Fits stops_reading c = is_disconnected c.state ≡ false
  Fits starts_reading c = is_disconnected c.state ≡ false
  Fits (runs answer (send_later text)) c = Sendable answer text c
  Fits (runs answer other) c = Unit {0}

  -- A call that goes through and keeps the invariant.
  abbrev Good : Outcome (Connection epoll eventfd) → Type 0
  Good o = (c' : Connection epoll eventfd) × (o ≡ ok c') × Inv epoll eventfd c'

  send_in_loop-Good :
      (answer : WriteResult) (text : List ℕ) (c : Connection epoll eventfd)
      → Inv epoll eventfd c
      → Sendable answer text c
      → Good (send_in_loop epoll eventfd answer text c)
  unfolding send_in_loop
  send_in_loop-Good answer text c v (takes, room) = elim (Bool-cases (is_disconnected c.state)) [
    | inl down ↦ (c, ground (arith, down), v)
    | inr up ↦
        let (c', e, w, same, all) = send_in_loop_lem epoll eventfd answer text c v up takes room in
        (c', e, w)
  ]

  queue-Inv :
      (in_thread : Bool) (task : Deferred) (c : Connection epoll eventfd)
      → Inv epoll eventfd c
      → Inv epoll eventfd (queue epoll eventfd in_thread task c)
  queue-Inv in_thread task c v =
      Inv-same epoll eventfd c (queue epoll eventfd in_thread task c) refl refl refl refl refl v

  send-Good :
      (in_thread : Bool) (answer : WriteResult) (text : List ℕ) (c : Connection epoll eventfd)
      → Inv epoll eventfd c
      → Sendable answer text c
      → Good (send epoll eventfd in_thread answer text c)
  unfolding send
  send-Good in_thread answer text c v fits =
      let later = queue-Inv false (send_later text) c v in
      let (c', e, w) = send_in_loop-Good answer text c v fits in
      elim (Bool-cases (is_connected c.state)) [
        | inr out ↦ (c, ground (arith, out), v)
        | inl on ↦ elim (Bool-cases in_thread) [
          | inl here ↦ (c', ground (arith, on, here, e), w)
          | inr there ↦
              (queue epoll eventfd false (send_later text) c, ground (arith, on, there), later)
        ]
      ]

  -- The state of an open connection that began to disconnect.
  pub disconnecting-Inv :
      (c : Connection epoll eventfd)
      → Inv epoll eventfd c
      → is_disconnected c.state ≡ false
      → Inv epoll eventfd (record c { state = disconnecting })
  disconnecting-Inv c v up = record {
    in_sync = v.in_sync;
    input = v.input;
    output = v.output;
    established = refl;
    urgent = λ _. v.urgent up;
    writing = λ _. v.writing up;
  }

  pub shutdown_in_loop-Inv :
      (c : Connection epoll eventfd)
      → Inv epoll eventfd c
      → Inv epoll eventfd (shutdown_in_loop epoll eventfd c)
  unfolding shutdown_in_loop
  shutdown_in_loop-Inv c v =
      Inv-same epoll eventfd c (shutdown_in_loop epoll eventfd c) (ground arith) (ground arith)
        (ground arith) (ground arith) (ground arith) v

  shutdown-Good :
      (in_thread : Bool) (c : Connection epoll eventfd)
      → Inv epoll eventfd c
      → is_disconnected c.state ≡ false
      → Good (shutdown epoll eventfd in_thread c)
  unfolding shutdown
  shutdown-Good in_thread c v up =
      let w = disconnecting-Inv c v up in
      let swapped : Connection epoll eventfd = record c { state = disconnecting } in
      elim (Bool-cases (is_connected c.state)) [
        | inr out ↦ (swapped, ground (arith, out, up), w)
        | inl on ↦ elim (Bool-cases in_thread) [
          | inl here ↦ (
            shutdown_in_loop epoll eventfd swapped,
            ground (arith, on, here, up),
            shutdown_in_loop-Inv swapped w,
          )
          | inr there ↦ (
            queue epoll eventfd false shutdown_later swapped,
            ground (arith, on, there, up),
            queue-Inv false shutdown_later swapped w,
          )
        ]
      ]

  force_close-Inv :
      (in_thread : Bool) (c : Connection epoll eventfd)
      → Inv epoll eventfd c
      → Inv epoll eventfd (force_close epoll eventfd in_thread c)
  unfolding force_close
  force_close-Inv in_thread c v = elim (Bool-cases (is_disconnected c.state)) [
    | inl down ↦ rw down v
    | inr up ↦ rw up (
        queue-Inv in_thread force_close_later (record c { state = disconnecting })
          (disconnecting-Inv c v up))
  ]

  start_read-Good :
      (c : Connection epoll eventfd)
      → Inv epoll eventfd c
      → is_disconnected c.state ≡ false
      → Good (start_read epoll eventfd c)
  unfolding start_read change_events is_zero
  start_read-Good c v up = elim (Bool-cases (channel epoll eventfd c).events.epoll_in) [
    | inl on ↦ (c, ground (arith, on), v)
    | inr off ↦
        let (p, e, changed) = set_channel_ok epoll eventfd enable_read c v.in_sync (v.urgent up) in
        (
          record c { poller = p },
          ground (arith, off, e),
          Changed-Inv epoll eventfd enable_read c p changed v.input v.output v.established
              (λ _. (refl, v.writing up)),
        )
  ]

  force_close_in_loop-Good :
      (c : Connection epoll eventfd)
      → Inv epoll eventfd c
      → Good (force_close_in_loop epoll eventfd c)
  unfolding force_close_in_loop
  force_close_in_loop-Good c v = elim (Bool-cases (is_disconnected c.state)) [
    | inl down ↦ (c, ground (arith, down), v)
    | inr up ↦
        let (c', e, k) = handle_close_lem epoll eventfd c v up in (c', ground (arith, up, e), k.inv)
  ]

  -- Each call of a connection's user, from the loop's thread or another, and each task deferred by
  -- one, in whatever state it comes to run, goes through without a failed assertion and keeps the
  -- invariant of an established connection. Assumed: write(2) takes no more than it is given and the
  -- bytes fit a vector; and `shutdown`, `stopRead` and `startRead` find the connection open.
  pub perform-Inv :
      (call : Call) (c : Connection epoll eventfd)
      → Inv epoll eventfd c
      → Fits call c
      → (c' : Connection epoll eventfd) × (perform call c ≡ ok c') × Inv epoll eventfd c'
  unfolding perform run_deferred send_view send_message
  perform-Inv (sends in_thread answer text) c v fits = send-Good in_thread answer text c v fits
  perform-Inv (sends_buffer in_thread answer b) c v (valid, fits) =
      let (b', e, w, _, _) = send_buffer_lem epoll eventfd in_thread answer b c valid in
      let (c', e', v') = send-Good in_thread answer (contents b) c v fits in
      (c', ground (arith, e, e'), v')
  perform-Inv (shuts_down in_thread) c v up = shutdown-Good in_thread c v up
  perform-Inv (forces_close in_thread) c v fits =
      (force_close epoll eventfd in_thread c, refl, force_close-Inv in_thread c v)
  perform-Inv stops_reading c v up =
      let (c', e, w, _, _, _) = stop_read_lem epoll eventfd c v up in (c', e, w)
  perform-Inv starts_reading c v up = start_read-Good c v up
  perform-Inv (runs answer write_complete) c v fits = (c, refl, v)
  perform-Inv (runs answer (high_water n)) c v fits = (c, refl, v)
  perform-Inv (runs answer (send_later text)) c v fits = send_in_loop-Good answer text c v fits
  perform-Inv (runs answer shutdown_later) c v fits =
      (shutdown_in_loop epoll eventfd c, refl, shutdown_in_loop-Inv c v)
  perform-Inv (runs answer force_close_later) c v fits = force_close_in_loop-Good c v
