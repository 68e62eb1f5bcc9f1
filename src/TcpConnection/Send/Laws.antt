-- ===== src/TcpConnection/Send/Laws.antt =====
-- `send(Buffer&)` against `send(const char*, size_t)` (TcpConnection.cpp).
use cc_server.Prelude.{◌-◌, Bool, true, false, ◌≡◌, refl, [], arith, Bool-cases, inl, inr}
use cc_server.Prelude.Outcome.{ok, ◌>>=◌}
use cc_server.Buffer.{
  Buffer, peek, readable_bytes, retrieve_all, retrieve_all_as_string, retrieve_as_string, retrieve,
  copy_from,
}
use cc_server.Buffer.Invariant.{IsValid, contents, readable_bytes-eq, copy_from_ok}
use cc_server.Buffer.Read.{retrieve_all-IsValid}
use cc_server.Epoll.{EpollKernel}
use cc_server.EventLoop.{EventFd}
use cc_server.TcpConnection.{Connection, WriteResult, is_connected, send}
use cc_server.TcpConnection.Send.{send_buffer}

-- The bytes held, as `send(Buffer&)` reads them.
readable_text :
    (b : Buffer) → IsValid b → copy_from (peek b) (readable_bytes b) b.bytes ≡ ok (contents b)
unfolding peek
readable_text b v = rw (readable_bytes-eq v) (
    copy_from_ok b.reader_index (b.writer_index - b.reader_index) b.bytes
      (omega (arith, v.ordered, v.within)))

taken_out : (b : Buffer) → IsValid b → retrieve_all_as_string b ≡ ok (contents b, retrieve_all b)
unfolding retrieve_all_as_string retrieve_as_string retrieve
taken_out b v = ground (arith, readable_text b v)

module _ (epoll : EpollKernel) (eventfd : EventFd) where
  -- On a connected connection `send(Buffer&)` of a valid buffer does from each thread what `send`
  -- of the bytes held does, failures included, and leaves the buffer valid and empty; on another
  -- connection it leaves both as they are.
  pub send_buffer_lem :
      (in_thread : Bool) (answer : WriteResult) (b : Buffer) (c : Connection epoll eventfd)
      → IsValid b
      → (b' : Buffer) × (send_buffer epoll eventfd in_thread answer b c
          ≡ (send epoll eventfd in_thread answer (contents b) c >>= λ c'. ok (b', c')))
        × IsValid b'
        × (is_connected c.state ≡ true → contents b' ≡ [])
        × (is_connected c.state ≡ false
            → (b' ≡ b) × (send epoll eventfd in_thread answer (contents b) c ≡ ok c))
  unfolding send_buffer send retrieve_all
  send_buffer_lem in_thread answer b c v = elim (Bool-cases (is_connected c.state)) [
    | inr out ↦ (b, ground (arith, out), v, λ on. cc, λ off. (refl, ground (arith, out)))
    | inl on ↦ (
      retrieve_all b,
      elim (Bool-cases in_thread) [
        | inl here ↦ ground (arith, on, here, readable_text b v)
        | inr there ↦ ground (arith, on, there, taken_out b v)
      ],
      retrieve_all-IsValid b v,
      λ h. refl,
      λ off. cc,
    )
  ]
