-- ===== src/Tests/Accepting.antt =====
-- Uses of the theorems on the acceptor and the connector.
use cc_server.Prelude.{◌≡◌, refl, true, false, []}
use cc_server.Prelude.Outcome.{aborts, ◌>>=◌}
use cc_server.Channel.{is_zero}
use cc_server.Acceptor.{Acceptor, destroy, destroy-aborts}
use cc_server.Connector.{in_progress, create, start, handle_write, never_connects}
use cc_server.Epoll.{Poller, change}
use cc_server.Tests.Kernel.{list_kernel}
use cc_server.Tests.Connecting.{waiting_for, waiting_for-InSync, reading}

abbrev listening : Acceptor list_kernel
listening = record {
  accept_fd = 5;
  poller = waiting_for reading;
  has_callback = true;
  handed = [];
  closed = [];
}

destroy-aborts_example : destroy list_kernel listening ≡ aborts
unfolding is_zero
destroy-aborts_example = destroy-aborts list_kernel listening (waiting_for-InSync reading refl) refl

never_connects_example :
    (start list_kernel in_progress false (create list_kernel 6 (waiting_for reading) true true)
      >>= handle_write list_kernel true)
    ≡ aborts
unfolding change cc_server.Epoll.update_channel cc_server.Channel.create
never_connects_example =
    never_connects list_kernel 6 (waiting_for reading) _ in_progress true true false true refl
