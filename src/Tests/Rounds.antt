-- ===== src/Tests/Rounds.antt =====
-- A round of a server with one connection, on descriptor 5, and the acceptor on descriptor 3.
use cc_server.Prelude.{ℕ, ◌≡◌, refl, List, [], ◌∷◌, true, none, some, arith, inr, ◌==◌}
use cc_server.Prelude.Outcome.{Outcome, ok}
use cc_server.Prelude.Map.{update}
use cc_server.Buffer.{Buffer}
use cc_server.Buffer.ReadFd.{ReadResult, received}
use cc_server.Channel.{is_zero}
use cc_server.Epoll.{Poller}
use cc_server.Epoll.Sync.{InSync}
use cc_server.TcpConnection.{wrote}
use cc_server.TcpServerSingle.{TcpServerSingle, accepted, reported, loop_channel}
use cc_server.TcpServerSingle.Members.{Inv}
use cc_server.TcpServerSingle.Reports.{Report}
use cc_server.TcpServerSingle.Round.{poll_round, poll_round_lem}
use cc_server.Tests.Kernel.{list_kernel, counter}
use cc_server.Tests.Connecting.{unused, channel_with, reading, reading_and_writing, loop, busy}

abbrev poller : Poller list_kernel
poller = record {
  kernel =
      update (update (update (λ fd. none) 4 (some reading)) 3 (some reading)) 5
        (some reading_and_writing);
  channels =
      update
        (update (update unused 4 (channel_with reading true 4)) 3 (channel_with reading true 3)) 5
        (channel_with reading_and_writing true 5);
  max_events = 128;
  errors = 0;
}

poller-InSync : InSync list_kernel poller
unfolding is_zero
poller-InSync = record {
  own_fd = λ j. ground arith;
  listed = λ j. ground arith;
  polled = λ j. ground arith;
  no_errors = refl;
}

abbrev server : TcpServerSingle list_kernel counter
server = record {
  accept_fd = 3;
  loop_fds = λ fd. fd == 4;
  poller = poller;
  table = λ fd. busy;
  connections = λ fd. fd == 5;
  notifies = true;
  calls = 0;
}

server-Inv : Inv list_kernel counter server
server-Inv = record {
  in_sync = poller-InSync;
  members = λ fd is_in. record {
    inv = record {
      in_sync = poller-InSync;
      input = omega arith;
      output = omega arith;
      established = refl;
      urgent = λ up. refl;
      writing = λ up. refl;
    };
    up = refl;
    same_fd = ground (arith, is_in);
  };
  unpolled = λ fd out ne foreign. ground (arith, out, ne, foreign);
  loop_polled = λ fd is_own. (ground (arith, is_own), ground (arith, is_own));
  listener = refl;
}

abbrev two_bytes : ℕ → ReadResult
two_bytes room = received (1 ∷ 2 ∷ [])

abbrev keep : Buffer → Outcome Buffer
keep b = ok b

-- The connection can be read and written, and one more is handed over.
abbrev reports : List (Report list_kernel counter)
reports =
    record { fd = 5; events = reading_and_writing; event = reported 5 two_bytes keep (wrote 3) }
    ∷ record { fd = 4; events = reading; event = loop_channel 4 }
    ∷ record { fd = 3; events = reading; event = accepted 7 loop }
    ∷ []

poll_round_lem_example :
    (t : TcpServerSingle list_kernel counter) × (poll_round list_kernel counter server reports
      ≡ ok t)
    × Inv list_kernel counter t
poll_round_lem_example =
    poll_round_lem list_kernel counter server reports server-Inv
      ((λ e. omega arith, (λ e. omega arith, tt)), ((λ e. omega arith, tt), (tt, tt)))
      (
        (refl, refl, λ b v. (b, refl, v), ground arith, omega arith, omega arith, inr refl, refl),
        ((refl, refl), ((refl, refl, λ e. omega arith, refl), tt)),
      )
