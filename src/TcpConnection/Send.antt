-- ===== src/TcpConnection/Send.antt =====
-- The other calls that send, and the tasks that the calls from other threads hand to the loop
-- (TcpConnection.cpp).
pub mod Laws
pub mod Calls
pub mod Graceful
pub mod Steady
pub mod Ends
use cc_server.Prelude.{Bool, true, false, List, not, ℕ, if◌then◌else◌}
use cc_server.Prelude.Outcome.{Outcome, ok, ◌>>=◌}
use cc_server.Buffer.{Buffer, peek, readable_bytes, copy_from, retrieve_all, retrieve_all_as_string}
use cc_server.Epoll.{EpollKernel}
use cc_server.EventLoop.{EventFd}
use cc_server.TcpConnection.{
  Connection, Deferred, write_complete, high_water, send_later, shutdown_later, force_close_later,
  WriteResult, is_connected, queue, send, send_in_loop, shutdown_in_loop, force_close_in_loop,
}

module _ (epoll : EpollKernel) (eventfd : EventFd) where
  -- `send(std::string_view)`
  unfoldable pub send_view :
      Bool → WriteResult → List ℕ → Connection epoll eventfd → Outcome (Connection epoll eventfd)
  send_view in_thread answer text c = send epoll eventfd in_thread answer text c

  -- `sendInLoop(const std::string&)`
  unfoldable pub send_message :
      WriteResult → List ℕ → Connection epoll eventfd → Outcome (Connection epoll eventfd)
  send_message answer message c = send_in_loop epoll eventfd answer message c

  -- `send(Buffer&)`: the buffer and the connection after it.
  unfoldable pub send_buffer :
      Bool
      → WriteResult
      → Buffer
      → Connection epoll eventfd
      → Outcome (Buffer × Connection epoll eventfd)
  unfolding peek
  send_buffer in_thread answer b c =
      if not (is_connected c.state)
      then ok (b, c)
      else if in_thread
      then (do
        source ← copy_from (peek b) (readable_bytes b) b.bytes
        c' ← send_in_loop epoll eventfd answer source c
        ok (retrieve_all b, c'))
      else (do
        (message, b') ← retrieve_all_as_string b
        ok (b', queue epoll eventfd false (send_later message) c))

  -- A task of `pendingTasks_`, where `answer` is for the write that it may make. The write complete
  -- and high water mark callbacks are the user's.
  unfoldable pub run_deferred :
      WriteResult → Deferred → Connection epoll eventfd → Outcome (Connection epoll eventfd)
  unfolding send_message
  run_deferred answer write_complete c = ok c
  run_deferred answer (high_water n) c = ok c
  run_deferred answer (send_later message) c = send_message answer message c
  run_deferred answer shutdown_later c = ok (shutdown_in_loop epoll eventfd c)
  run_deferred answer force_close_later c = force_close_in_loop epoll eventfd c
