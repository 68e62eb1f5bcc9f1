-- ===== src/TcpConnection/Dispatch.antt =====
-- What the events of a connection's channel come to: `Channel::handleEvent` with the callbacks that
-- the constructor sets (TcpConnection.cpp, Channel.cpp).
pub mod Laws
use cc_server.Prelude.{ℕ, Bool, some}
use cc_server.Prelude.Outcome.{Outcome, ok}
use cc_server.Buffer.{Buffer}
use cc_server.Buffer.ReadFd.{ReadResult}
use cc_server.Channel.Dispatch.{Callbacks, handle_event}
use cc_server.Epoll.{EpollKernel}
use cc_server.EventLoop.{EventFd}
use cc_server.TcpConnection.{
  Connection, WriteResult, channel, handle_read, handle_write, handle_close,
}

module _ (epoll : EpollKernel) (eventfd : EventFd) where
  -- It asks for the error of the socket and logs it.
  unfoldable pub handle_error : Connection epoll eventfd → Outcome (Connection epoll eventfd)
  handle_error c = ok c

  unfoldable pub callbacks :
      (ℕ → ReadResult)
      → (Buffer → Outcome Buffer)
      → WriteResult
      → Callbacks (Connection epoll eventfd)
  callbacks readv message_callback answer = record {
    close_callback = some (handle_close epoll eventfd);
    error_callback = some handle_error;
    read_callback = some (handle_read epoll eventfd readv message_callback);
    write_callback = some (handle_write epoll eventfd answer);
  }

  -- `alive` is whether the connection that the channel is tied to is still there.
  unfoldable pub dispatch :
      (ℕ → ReadResult)
      → (Buffer → Outcome Buffer)
      → WriteResult
      → Bool
      → Connection epoll eventfd
      → Outcome (Connection epoll eventfd)
  unfolding callbacks handle_error
  dispatch readv message_callback answer alive c =
      handle_event (callbacks readv message_callback answer) alive (channel epoll eventfd c) c
