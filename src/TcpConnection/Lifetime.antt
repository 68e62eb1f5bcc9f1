-- ===== src/TcpConnection/Lifetime.antt =====
-- The constructor and the destructor of a connection (TcpConnection.cpp).
use cc_server.Prelude.{ℕ, ◌≡◌, ◌≢◌, refl, false, none, [], arith}
use cc_server.Prelude.Outcome.{Outcome, ok, ◌>>=◌, assert}
use cc_server.Buffer
use cc_server.Buffer.{Buffer, initial_size}
use cc_server.Buffer.Invariant.{create_lem}
use cc_server.Channel
use cc_server.Channel.{Channel, is_zero, no_events}
use cc_server.Epoll.{EpollKernel, Poller, store}
use cc_server.Epoll.Sync.{InSync}
use cc_server.EventLoop.{EventFd, Loop}
use cc_server.TcpConnection.{Connection, Deferred, connecting, channel, is_disconnected}
use cc_server.TcpConnection.Close.{IsFresh}

module _ (epoll : EpollKernel) (eventfd : EventFd) where
  -- The poller has no channel for the descriptor yet.
  unfoldable pub create :
      ℕ → Poller epoll → Loop eventfd Deferred → Outcome (Connection epoll eventfd)
  create fd poller loop = do
    input ← Buffer.create initial_size
    output ← Buffer.create initial_size
    ok (record {
      state = connecting;
      fd = fd;
      poller = store epoll poller (Channel.create fd);
      loop = loop;
      input_buffer = input;
      output_buffer = output;
      high_water_mark = 0;
      has_write_complete = false;
      has_high_water = false;
      sent = [];
      shut_down = false;
      closed_after = none;
      messages = 0;
      closes = 0;
    })

  -- The destructor, up to the close of the descriptor.
  unfoldable pub destroy : Connection epoll eventfd → Outcome (Unit {0})
  destroy c = assert (is_disconnected c.state)

  -- A new connection, and what the constructor leaves.
  pub record Created (fd : ℕ) (p : Poller epoll) (c : Connection epoll eventfd) : Type 0 where
    pub fresh : IsFresh epoll eventfd c
    pub same_fd : c.fd ≡ fd
    pub own : (channel epoll eventfd c).fd ≡ fd
    pub elsewhere : (j : ℕ) → fd ≢ j → c.poller.channels j ≡ p.channels j

  pub create-Created :
      (fd : ℕ) (p : Poller epoll) (loop : Loop eventfd Deferred)
      → InSync epoll p
      → (p.channels fd).polling ≡ false
      → (c : Connection epoll eventfd) × (create fd p loop ≡ ok c) × Created fd p c
  unfolding create Channel.create is_zero
  create-Created fd p loop s unused =
      let (b, e, valid, empty, room) = create_lem initial_size (omega arith) in
      (
        record {
          state = connecting;
          fd = fd;
          poller = store epoll p (Channel.create fd);
          loop = loop;
          input_buffer = b;
          output_buffer = b;
          high_water_mark = 0;
          has_write_complete = false;
          has_high_water = false;
          sent = [];
          shut_down = false;
          closed_after = none;
          messages = 0;
          closes = 0;
        },
        ground (arith, e),
        record {
          fresh = record {
            in_sync = record {
              own_fd = λ j. ground (arith, s.own_fd j);
              listed = λ j. ground (arith, s.listed j, unused);
              polled = λ j. ground (arith, s.polled j);
              no_errors = s.no_errors;
            };
            input = valid;
            output = valid;
            empty = empty;
            state = refl;
            unused = ground arith;
          };
          same_fd = refl;
          own = ground arith;
          elsewhere = λ j ne. ground (arith, ne);
        },
      )
