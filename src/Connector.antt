-- ===== src/Connector.antt =====
-- Connector.h and Connector.cpp: a socket that connects. What connect(2) and getsockopt(2) answer
-- are arguments; log lines are left out.
use cc_server.Prelude.{ℕ, ◌+◌, ◌≡◌, not, Bool, true, false, arith, if◌then◌else◌, refl}
use cc_server.Prelude.Outcome.{Outcome, ok, aborts, assert, ◌>>=◌, ◌>>◌}
use cc_server.Channel
use cc_server.Channel.{enable_write, disable_all}
use cc_server.Epoll.{EpollKernel, Poller, change, store}

-- What connect(2) comes to.
pub data ConnectResult : Type 0 where
  connects in_progress fails : ConnectResult

module _ (epoll : EpollKernel) where
  -- How often the two callbacks were called.
  pub record Connector : Type 0 where
    pub sockfd : ℕ
    pub poller : Poller epoll
    pub connected : Bool
    pub started : Bool
    pub has_new_connection : Bool
    pub has_error : Bool
    pub new_connections : ℕ
    pub errors : ℕ

  -- The constructor, with the socket's new channel.
  unfoldable pub create : ℕ → Poller epoll → Bool → Bool → Connector
  unfolding Channel.create
  create sockfd poller has_new_connection has_error = record {
    sockfd = sockfd;
    poller = store epoll poller (Channel.create sockfd);
    connected = false;
    started = false;
    has_new_connection = has_new_connection;
    has_error = has_error;
    new_connections = 0;
    errors = 0;
  }

  -- `failed` is whether `errno` is not 0 after getsockopt(2).
  unfoldable pub handle_write : Bool → Connector → Outcome Connector
  handle_write failed c = do
    assert c.started
    p ← change epoll c.poller c.sockfd disable_all
    let c' : Connector = record c { poller = p }
    if failed
        then ok (if c.has_error then record c' { errors = c.errors + 1 } else c')
        else ok (
            if c.has_new_connection
            then record c' { connected = true; new_connections = c.new_connections + 1 }
            else c')

  unfoldable pub start : ConnectResult → Bool → Connector → Outcome Connector
  start in_progress failed c = do
    assert (not c.started)
    p ← change epoll c.poller c.sockfd enable_write
    ok (record c { poller = p })
  start connects failed c = do assert (not c.started); handle_write failed c
  start fails failed c = do assert (not c.started); handle_write failed c

  -- Whatever connect(2) and getsockopt(2) answer, a new connector does not come to call back:
  -- `start`, followed by `handleWrite` where the connection is in progress, fails an assertion, if
  -- the channel of the socket can be changed.
  pub never_connects :
      (sockfd : ℕ) (poller p : Poller epoll) (r : ConnectResult) (new err f₁ f₂ : Bool)
      → change epoll (store epoll poller (Channel.create sockfd)) sockfd enable_write ≡ ok p
      → (start r f₁ (create sockfd poller new err) >>= handle_write f₂) ≡ aborts
  unfolding start handle_write create
  never_connects sockfd poller p in_progress new err f₁ f₂ e = ground (arith, e)
  never_connects sockfd poller p connects new err f₁ f₂ e = refl
  never_connects sockfd poller p fails new err f₁ f₂ e = refl
