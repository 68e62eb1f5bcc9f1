-- ===== src/TcpConnection/Send/Graceful.antt =====
-- What was sent reaches the socket before it is closed for writing (TcpConnection.cpp: send,
-- shutdown, handleWrite).
use cc_server.Prelude.{
  ap, ap₂, ◌∙◌, sym, ℕ, ◌+◌, ◌≤◌, true, false, ◌≡◌, refl, List, [], ◌++◌, arith, if◌then◌else◌,
  length, Bool-cases, Bool, none, some, not, ◌&&◌, ltb, inl, inr,
}
use cc_server.Prelude.Outcome.{ok, ◌>>=◌, both-ok}
use cc_server.Buffer.Invariant.{contents}
use cc_server.Channel.{is_writing}
use cc_server.Epoll.{EpollKernel}
use cc_server.EventLoop.{EventFd}
use cc_server.TcpConnection.{
  ConnectionState, connecting, connected, disconnecting, disconnected, Connection, is_disconnected,
  is_disconnecting, is_connected, WriteResult, shutdown_in_loop, send, shutdown, first_of, channel,
  keep_rest, write_now, send_in_loop, wrote, write_failed,
}
use cc_server.TcpConnection.Invariant.{Inv, has_bytes}
use cc_server.TcpConnection.Output.{Takes, gives_up, send_in_loop_lem, send_in_loop_lem, stream}
use cc_server.TcpConnection.Drain.{open_of_disconnecting}
use cc_server.TcpConnection.Frame.{ok_injective}
use cc_server.Buffer.{max_size, append}
use cc_server.TcpConnection.Flush.{Serves, flush, flush_lem, flush_idle}
use cc_server.TcpConnection.Send.Calls.{disconnecting-Inv, shutdown_in_loop-Inv}

connected-open : (s : ConnectionState) → is_connected s ≡ true → is_disconnected s ≡ false
connected-open connected h = refl
connected-open connecting h = refl
connected-open disconnecting h = refl
connected-open disconnected h = cc

module _ (epoll : EpollKernel) (eventfd : EventFd) where
  -- `sendInLoop` does not close for writing.
  keep_rest-closed :
      (rest : List ℕ) (fault : Bool) (c : Connection epoll eventfd)
      → (d : Connection epoll eventfd) → keep_rest epoll eventfd rest fault c ≡ ok d
      → d.closed_after ≡ c.closed_after
  unfolding keep_rest
  keep_rest-closed rest fault c = elim (Bool-cases (not fault && ltb 0 (length rest))) [
    | inr done ↦ rw done (λ d e. sym (ap (λ x. x.closed_after) (ok_injective e)))
    | inl more ↦ rw more (λ d e.
        let (b, last, first) = both-ok _ (append c.output_buffer rest) (sym e) in
        ground (arith, last))
  ]

  write_now-closed :
      (answer : WriteResult) (source : List ℕ) (c : Connection epoll eventfd)
      → (write_now epoll eventfd answer source c).0.closed_after ≡ c.closed_after
  unfolding write_now
  write_now-closed (write_failed e) source c = refl
  write_now-closed (wrote n) source c = ground arith

  send_in_loop-closed :
      (answer : WriteResult) (source : List ℕ) (c d : Connection epoll eventfd)
      → send_in_loop epoll eventfd answer source c ≡ ok d
      → d.closed_after ≡ c.closed_after
  unfolding send_in_loop is_writing
  send_in_loop-closed answer source c d e =
      let (c', rest, fault) = write_now epoll eventfd answer source c in
      elim (Bool-cases (is_disconnected c.state)) [
        | inl down ↦ ground (arith, e, down)
        | inr up ↦ elim (Bool-cases (channel epoll eventfd c).events.epoll_out) [
          | inl busy ↦ keep_rest-closed source false c d (ground (arith, e, up, busy))
          | inr idle ↦
              keep_rest-closed rest fault c' d (ground (arith, e, up, idle))
              ∙ write_now-closed answer source c
        ]
      ]

  -- `shutdown` in the loop's thread closes for writing at once, if nothing is kept.
  shutdown_here :
      (c : Connection epoll eventfd)
      → Inv epoll eventfd c
      → is_connected c.state ≡ true
      → (d : Connection epoll eventfd) × (shutdown epoll eventfd true c ≡ ok d)
        × Inv epoll eventfd d
        × (is_disconnecting d.state ≡ true)
        × (d.output_buffer ≡ c.output_buffer)
        × (d.sent ≡ c.sent)
        × (has_bytes c.output_buffer ≡ false
            → (d.shut_down ≡ true) × (d.closed_after ≡ first_of c.closed_after c.sent))
        × (has_bytes c.output_buffer ≡ true → d.closed_after ≡ c.closed_after)
  unfolding shutdown shutdown_in_loop is_writing
  shutdown_here c v on =
      let up = connected-open c.state on in
      let d = shutdown_in_loop epoll eventfd (record c { state = disconnecting }) in
      (
        d,
        ground (arith, on, up),
        shutdown_in_loop-Inv epoll eventfd (record c { state = disconnecting })
            (disconnecting-Inv epoll eventfd c v up),
        ground arith,
        ground arith,
        ground arith,
        λ none_left.
            (ground (arith, v.writing up, none_left), ground (arith, v.writing up, none_left)),
        λ some_left. ground (arith, v.writing up, some_left),
      )

  -- On a connected connection, `send` and then `shutdown` from the loop's thread pass every assertion,
  -- and as many reports as bytes are kept write all that was given to the connection before, and then
  -- these bytes. shutdown(2) closes the connection for writing, and does so first when write(2) has
  -- taken all of them. Assumed: it was not closed for writing before; the direct write does not fail by
  -- EPIPE or ECONNRESET; write(2) takes no more than it is given, and at least one byte once the
  -- socket was reported as writable; and the bytes fit the vector.
  pub graceful_end :
      (kernel : List ℕ → WriteResult) (answer : WriteResult) (text : List ℕ)
      (c : Connection epoll eventfd)
      → Serves epoll eventfd kernel
      → Inv epoll eventfd c
      → is_connected c.state ≡ true
      → c.closed_after ≡ none
      → gives_up epoll eventfd c answer ≡ false
      → Takes answer text
      → c.output_buffer.writer_index + length text ≤ max_size
      → (c' : Connection epoll eventfd) × ((do
        sending ← send epoll eventfd true answer text c
        ending ← shutdown epoll eventfd true sending
        flush epoll eventfd kernel (length (contents ending.output_buffer)) ending)
          ≡ ok c')
        × Inv epoll eventfd c'
        × (contents c'.output_buffer ≡ [])
        × (c'.sent ≡ stream epoll eventfd c ++ text)
        × (c'.shut_down ≡ true)
        × (c'.closed_after ≡ some (stream epoll eventfd c ++ text))
  unfolding send
  graceful_end kernel answer text c serves v on unshut no_fault fits room =
      let up = connected-open c.state on in
      let (d, e, w, s, grown) = send_in_loop_lem epoll eventfd answer text c v up fits room in
      let (d', e', w', ending, o, t, half, later) = shutdown_here d w (ap is_connected s ∙ on) in
      let (c', done, f) =
        flush_lem epoll eventfd kernel (length (contents d'.output_buffer)) d' serves w'
          (open_of_disconnecting d'.state ending) (omega arith) in
      let all_sent : c'.sent ≡ stream epoll eventfd c ++ text =
        f.all_sent
        ∙ ap₂ (λ l b. l ++ contents b) t o
        ∙ grown
        ∙ ap (λ b. stream epoll eventfd c ++ (if b then [] else text)) no_fault in
      let unclosed : d.closed_after ≡ none = send_in_loop-closed answer text c d e ∙ unshut in
      let ends : (c'.shut_down ≡ true) × (c'.closed_after ≡ some (stream epoll eventfd c ++ text)) =
        elim (Bool-cases (has_bytes d.output_buffer)) [
          | inl waits ↦
              let kept : has_bytes d'.output_buffer ≡ true = ap has_bytes o ∙ waits in
              (
                f.half_closed kept ending,
                f.behind kept ending ∙ ap₂ first_of (later waits ∙ unclosed) all_sent,
              )
          | inr empty ↦
              let idle_still : (channel epoll eventfd d').events.epoll_out ≡ false =
                w'.writing (open_of_disconnecting d'.state ending) ∙ ap has_bytes o ∙ empty in
              let same : c' ≡ d' = ok_injective (
                sym done
                ∙ flush_idle epoll eventfd kernel (length (contents d'.output_buffer)) d'
                    idle_still) in
              let (shut, at) = half empty in
              (
                ap (λ x. x.shut_down) same ∙ shut,
                ap (λ x. x.closed_after) same
                    ∙ at
                    ∙ ap₂ first_of unclosed (sym t ∙ sym (ap (λ x. x.sent) same) ∙ all_sent),
              )
        ] in
      (c', ground (arith, e, e', done, on), f.inv, f.empty, all_sent, ends.0, ends.1)
