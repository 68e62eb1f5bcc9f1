-- ===== src/TcpServerSingle.antt =====
-- TcpServerSingle.h and TcpServerSingle.cpp: the connections of one loop, which share its poller.
-- A connection is named by its descriptor, which is in use as long as the connection lives. The
-- tasks that it hands to the loop stand in a queue of its own.
pub mod Members
pub mod Laws
pub mod Serve
mod Elsewhere
pub mod Reports
pub mod Round
use cc_server.Prelude.{List, [], ℕ, ◌+◌, Bool, true, false, ltb, if◌then◌else◌, ◌∷◌}
use cc_server.Prelude.Outcome.{Outcome, ok, assert, ◌>>=◌, ◌>>◌}
use cc_server.Prelude.Map.{update}
use cc_server.Buffer.{Buffer}
use cc_server.Buffer.ReadFd.{ReadResult}
use cc_server.Channel.{enable_read}
use cc_server.Epoll.{EpollKernel, Poller, change}
use cc_server.EventLoop.{EventFd, Loop}
use cc_server.TcpConnection.{Connection, Deferred, WriteResult, connect_established}
use cc_server.TcpConnection.Dispatch.{dispatch}
use cc_server.TcpConnection.Lifetime.{create}
use cc_server.TcpConnection.Send.Calls.{Call, perform}

module _ (epoll : EpollKernel) (eventfd : EventFd) where
  -- `table` are the connections, of which `connections` tells those in `connections_`. The poller
  -- that a connection of the table has is out of date, see `view`. `calls` is how often
  -- `connectionCallback_` was called. `loop_fds` are the descriptors of the loop itself, its eventfd
  -- and its timerfd, which the same poller polls.
  pub record TcpServerSingle : Type 0 where
    pub accept_fd : ℕ
    pub loop_fds : ℕ → Bool
    pub poller : Poller epoll
    pub table : ℕ → Connection epoll eventfd
    pub connections : ℕ → Bool
    pub notifies : Bool
    pub calls : ℕ

  abbrev pub view : TcpServerSingle → ℕ → Connection epoll eventfd
  view s fd = record (s.table fd) { poller = s.poller }

  abbrev pub put : TcpServerSingle → ℕ → Connection epoll eventfd → TcpServerSingle
  put s fd c = record s { poller = c.poller; table = update s.table fd c }

  unfoldable pub start : TcpServerSingle → Outcome TcpServerSingle
  start s = do p ← change epoll s.poller s.accept_fd enable_read; ok (record s { poller = p })

  -- `notifies` is whether there is a `writeCompleteCallback_`.
  unfoldable pub new_connection :
      ℕ → Loop eventfd Deferred → TcpServerSingle → Outcome TcpServerSingle
  new_connection fd loop s = do
    c ← create epoll eventfd fd s.poller loop
    c' ← connect_established epoll eventfd (record c { has_write_complete = s.notifies })
    ok (record (put s fd c') { connections = update s.connections fd true; calls = s.calls + 1 })

  unfoldable pub close_connection : ℕ → TcpServerSingle → Outcome TcpServerSingle
  close_connection fd s = do
    assert (s.connections fd)
    ok (record s { connections = update s.connections fd false; calls = s.calls + 1 })

  -- A handler of a connection, and `closeConnection` if it called the close callback. The handlers
  -- do so at their end, and the events handled after it leave a connection that has ended.
  unfoldable pub with_connection :
      (Connection epoll eventfd → Outcome (Connection epoll eventfd))
      → ℕ
      → TcpServerSingle
      → Outcome TcpServerSingle
  unfolding close_connection
  with_connection handler fd s = do
    c ← handler (view s fd)
    if ltb (s.table fd).closes c.closes then close_connection fd (put s fd c) else ok (put s fd c)

  -- The acceptor hands over a descriptor, or the poller reports a connection, with what the system
  -- answers to its calls; or the user calls a connection, or a task that it deferred runs; or a
  -- channel of the loop itself is handled, which leaves the server alone: what the callbacks of timers
  -- call is an event of its own.
  pub data Event : Type 0 where
    accepted : ℕ → Loop eventfd Deferred → Event
    reported : ℕ → (ℕ → ReadResult) → (Buffer → Outcome Buffer) → WriteResult → Event
    called : ℕ → Call → Event
    loop_channel : ℕ → Event

  unfoldable pub step : TcpServerSingle → Event → Outcome TcpServerSingle
  step s (accepted fd loop) = new_connection fd loop s
  step s (reported fd readv message_callback answer) =
      with_connection (dispatch epoll eventfd readv message_callback answer true) fd s
  step s (called fd call) = with_connection (perform epoll eventfd call) fd s
  step s (loop_channel fd) = ok s

  unfoldable pub run : TcpServerSingle → List Event → Outcome TcpServerSingle
  run s [] = ok s
  run s (e ∷ es) = do t ← step s e; run t es
