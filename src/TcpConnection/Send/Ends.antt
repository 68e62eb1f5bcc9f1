-- ===== src/TcpConnection/Send/Ends.antt =====
-- How a call of a connection's user ends: the connection stays open, or its close callback ran
-- (TcpConnection.cpp).
use mathlib.Core.Path.{subst}
use cc_server.Prelude.{
  ◌≡◌, refl, ap, sym, ◌∙◌, inl, inr, Bool, false, not, List, ℕ, arith, Bool-cases,
}
use cc_server.Prelude.Outcome.{Outcome, ok, ◌>>=◌, assert, both-ok}
use cc_server.Buffer.{Buffer}
use cc_server.Buffer.Invariant.{IsValid, contents}
use cc_server.Channel.{enable_read, disable_read, is_reading}
use cc_server.Epoll.{EpollKernel}
use cc_server.EventLoop.{EventFd}
use cc_server.TcpConnection.{
  Connection, write_complete, high_water, send_later, shutdown_later, force_close_later,
  disconnecting, WriteResult, channel, is_connected, is_disconnected, queue, send, shutdown,
  shutdown_in_loop, force_close, force_close_in_loop, handle_close, stop_read, start_read,
}
use cc_server.TcpConnection.Invariant.{Inv}
use cc_server.TcpConnection.Close.{handle_close_lem}
use cc_server.TcpConnection.Dispatch.Laws.{Ends}
use cc_server.TcpConnection.Frame.{ok_injective, Frame, handle_close-Keeps}
use cc_server.TcpConnection.Send.{send_buffer, send_message, send_view, run_deferred}
use cc_server.TcpConnection.Send.Laws.{send_buffer_lem}
use cc_server.TcpConnection.Send.Calls.{
  Call, sends, sends_buffer, shuts_down, forces_close, stops_reading, starts_reading, runs, perform,
  Fits,
}
use cc_server.TcpConnection.Send.Steady.{
  Steady, Steady-refl, Steady-trans, Steady-same, Stays, ok-Stays, bind-Stays, set_channel-Stays,
  send_in_loop-Stays,
}

module _ (epoll : EpollKernel) (eventfd : EventFd) where
  send-Stays :
      (in_thread : Bool) (answer : WriteResult) (text : List ℕ) (c : Connection epoll eventfd)
      → Stays epoll eventfd c (send epoll eventfd in_thread answer text c)
  unfolding send
  send-Stays in_thread answer text c =
      let later = queue epoll eventfd false (send_later text) c in
      elim (Bool-cases (is_connected c.state)) [
        | inr out ↦ rw out (ok-Stays epoll eventfd c c (Steady-refl epoll eventfd c))
        | inl on ↦ elim (Bool-cases in_thread) [
          | inl here ↦ rw (on, here) (send_in_loop-Stays epoll eventfd answer text c)
          | inr there ↦
              rw (on, there)
                (ok-Stays epoll eventfd c later
                  (Steady-same epoll eventfd c later refl refl refl (λ u. u)))
        ]
      ]

  buffer-Stays :
      (in_thread : Bool) (answer : WriteResult) (b : Buffer) (c : Connection epoll eventfd)
      → IsValid b
      → Stays epoll eventfd c (perform epoll eventfd (sends_buffer in_thread answer b) c)
  unfolding perform
  buffer-Stays in_thread answer b c v d e =
      let (b', same, _, _, _) = send_buffer_lem epoll eventfd in_thread answer b c v in
      let (pair, last, first) =
        both-ok (λ (p : Buffer × Connection epoll eventfd). ok p.1)
          (send_buffer epoll eventfd in_thread answer b c) (sym e) in
      let (c', made, sent) =
        both-ok (λ (x : Connection epoll eventfd). ok (b', x))
          (send epoll eventfd in_thread answer (contents b) c) (sym first ∙ same) in
      send-Stays in_thread answer (contents b) c d
        (sent ∙ ap (λ o. o >>= λ (p : Buffer × Connection epoll eventfd). ok p.1) made ∙ last)

  shutdown_in_loop-Steady :
      (c : Connection epoll eventfd) → Steady epoll eventfd c (shutdown_in_loop epoll eventfd c)
  unfolding shutdown_in_loop
  shutdown_in_loop-Steady c =
      Steady-same epoll eventfd c (shutdown_in_loop epoll eventfd c) (ground arith) (ground arith)
        (ground arith) (λ u. ground (arith, u))

  shutdown-Stays :
      (in_thread : Bool) (c : Connection epoll eventfd)
      → Stays epoll eventfd c (shutdown epoll eventfd in_thread c)
  unfolding shutdown
  shutdown-Stays in_thread c =
      let swapped : Connection epoll eventfd = record c { state = disconnecting } in
      let first = Steady-same epoll eventfd c swapped refl refl refl (λ u. refl) in
      let later = queue epoll eventfd false shutdown_later swapped in
      bind-Stays epoll eventfd c (assert (not (is_disconnected c.state))) _ λ _ _.
        elim (Bool-cases (is_connected c.state)) [
          | inr out ↦ rw out (ok-Stays epoll eventfd c swapped first)
          | inl on ↦ elim (Bool-cases in_thread) [
            | inl here ↦
                rw (on, here)
                  (ok-Stays epoll eventfd c (shutdown_in_loop epoll eventfd swapped) (
                    Steady-trans epoll eventfd c swapped _ first (shutdown_in_loop-Steady swapped)))
            | inr there ↦
                rw (on, there)
                  (ok-Stays epoll eventfd c later (
                    Steady-trans epoll eventfd c swapped later first
                      (Steady-same epoll eventfd swapped later refl refl refl (λ u. u))))
          ]
        ]

  force_close-Steady :
      (in_thread : Bool) (c : Connection epoll eventfd)
      → Steady epoll eventfd c (force_close epoll eventfd in_thread c)
  unfolding force_close
  force_close-Steady in_thread c =
      Steady-same epoll eventfd c (force_close epoll eventfd in_thread c) (ground arith)
        (ground arith) (ground arith) (λ u. ground (arith, u))

  stop_read-Stays :
      (c : Connection epoll eventfd) → Stays epoll eventfd c (stop_read epoll eventfd c)
  unfolding stop_read is_reading
  stop_read-Stays c = elim (Bool-cases (channel epoll eventfd c).events.epoll_in) [
    | inl on ↦ rw on (set_channel-Stays epoll eventfd disable_read c)
    | inr off ↦ rw off (ok-Stays epoll eventfd c c (Steady-refl epoll eventfd c))
  ]

  start_read-Stays :
      (c : Connection epoll eventfd) → Stays epoll eventfd c (start_read epoll eventfd c)
  unfolding start_read is_reading
  start_read-Stays c = elim (Bool-cases (channel epoll eventfd c).events.epoll_in) [
    | inl on ↦ rw on (ok-Stays epoll eventfd c c (Steady-refl epoll eventfd c))
    | inr off ↦ rw off (set_channel-Stays epoll eventfd enable_read c)
  ]

  -- A call that goes through leaves the other channels, and the connection either stays open or its
  -- close callback ran once.
  abbrev pub Settles : Connection epoll eventfd → Outcome (Connection epoll eventfd) → Type 0
  Settles c o =
      (d : Connection epoll eventfd) → o ≡ ok d → Frame epoll eventfd c d × Ends epoll eventfd c d

  Stays-Settles :
      (c : Connection epoll eventfd) (o : Outcome (Connection epoll eventfd))
      → is_disconnected c.state ≡ false
      → Stays epoll eventfd c o
      → Settles c o
  Stays-Settles c o up k d e = let s = k d e in (s.frame, inr (s.up up, s.closes))

  force_close_in_loop-Settles :
      (c : Connection epoll eventfd)
      → Inv epoll eventfd c
      → is_disconnected c.state ≡ false
      → Settles c (force_close_in_loop epoll eventfd c)
  unfolding force_close_in_loop
  force_close_in_loop-Settles c v up d e =
      let (c', closed, k) = handle_close_lem epoll eventfd c v up in
      let handled : handle_close epoll eventfd c ≡ ok d = ground (arith, e, up) in
      (
        handle_close-Keeps epoll eventfd c d handled,
        subst (Ends epoll eventfd c) (ok_injective (sym closed ∙ handled))
            (inl (ap is_disconnected k.state, k.closes, k.unpolled)),
      )

  pub perform-Settles :
      (call : Call) (c : Connection epoll eventfd)
      → Inv epoll eventfd c
      → is_disconnected c.state ≡ false
      → Fits epoll eventfd call c
      → Settles c (perform epoll eventfd call c)
  unfolding perform run_deferred send_view send_message
  perform-Settles (sends in_thread answer text) c v up fits =
      Stays-Settles c _ up (send-Stays in_thread answer text c)
  perform-Settles (sends_buffer in_thread answer b) c v up (valid, fits) =
      Stays-Settles c _ up (buffer-Stays in_thread answer b c valid)
  perform-Settles (shuts_down in_thread) c v up fits =
      Stays-Settles c _ up (shutdown-Stays in_thread c)
  perform-Settles (forces_close in_thread) c v up fits =
      Stays-Settles c _ up (ok-Stays epoll eventfd c _ (force_close-Steady in_thread c))
  perform-Settles stops_reading c v up fits = Stays-Settles c _ up (stop_read-Stays c)
  perform-Settles starts_reading c v up fits = Stays-Settles c _ up (start_read-Stays c)
  perform-Settles (runs answer write_complete) c v up fits =
      Stays-Settles c _ up (ok-Stays epoll eventfd c c (Steady-refl epoll eventfd c))
  perform-Settles (runs answer (high_water n)) c v up fits =
      Stays-Settles c _ up (ok-Stays epoll eventfd c c (Steady-refl epoll eventfd c))
  perform-Settles (runs answer (send_later text)) c v up fits =
      Stays-Settles c _ up (send_in_loop-Stays epoll eventfd answer text c)
  perform-Settles (runs answer shutdown_later) c v up fits =
      Stays-Settles c _ up (ok-Stays epoll eventfd c _ (shutdown_in_loop-Steady c))
  perform-Settles (runs answer force_close_later) c v up fits = force_close_in_loop-Settles c v up
