-- ===== src/Tests/Dispatching.antt =====
-- A connection whose channel is dispatched, and a server, at concrete inputs.
use cc_server.Prelude.{ℕ, ◌≡◌, refl, inr, [], ◌∷◌, true, false, none, some, arith, ◌==◌}
use cc_server.Prelude.Outcome.{Outcome, ok, aborts}
use cc_server.Prelude.Map.{update}
use cc_server.Buffer.{Buffer}
use cc_server.Buffer.ReadFd.{ReadResult, received}
use cc_server.Channel.{Events, no_events, is_zero}
use cc_server.Epoll.{Poller}
use cc_server.Epoll.Sync.{InSync}
use cc_server.TcpConnection.{Connection, wrote, connected}
use cc_server.TcpConnection.Invariant.{Inv}
use cc_server.TcpConnection.Dispatch.{dispatch}
use cc_server.TcpConnection.Dispatch.Laws.{Ends, dispatch_lem, hangup-aborts}
use cc_server.TcpServerSingle
use cc_server.TcpServerSingle.{TcpServerSingle, start, step, run, accepted, called, new_connection}
use cc_server.TcpServerSingle.Members
use cc_server.TcpServerSingle.Serve.{IsNew, AllAllowed, serve_lem}
use cc_server.TcpConnection.Send.Calls.{forces_close}
use cc_server.Prelude.Outcome.{◌>>=◌}
use cc_server.Prelude.{List}
use cc_server.Tests.Kernel.{list_kernel, counter}
use cc_server.Tests.Connecting.{
  fresh, channel_with, loop, unused, reading, reading_and_writing, empty_buffer, filled_buffer,
}

-- What the poller reports on descriptor 5, which waits for `e`.
abbrev reported_on : Events → Events → Poller list_kernel
reported_on e r = record {
  kernel = update (λ fd. none) 5 (some e);
  channels = update unused 5 (record {
    fd = 5;
    events = e;
    revents = r;
    polling = true;
    tied = true;
    handling_events = false;
  });
  max_events = 128;
  errors = 0;
}

reported_on-InSync : (e r : Events) → is_zero e ≡ false → InSync list_kernel (reported_on e r)
unfolding is_zero
reported_on-InSync e r h = record {
  own_fd = λ j. ground arith;
  listed = λ j. ground arith;
  polled = λ j. ground arith;
  no_errors = refl;
}

abbrev open_with : Events → Events → Buffer → Connection list_kernel counter
open_with e r b = record fresh { state = connected; poller = reported_on e r; output_buffer = b }

-- Input and room for output.
abbrev both : Events
both = record no_events { epoll_in = true; epoll_out = true }

abbrev half_closed : Events
half_closed = record no_events { epoll_hup = true; epoll_rdhup = true }

abbrev working : Connection list_kernel counter
working = open_with reading_and_writing both filled_buffer

abbrev hung_up : Connection list_kernel counter
hung_up = open_with reading half_closed empty_buffer

working-Inv : Inv list_kernel counter working
unfolding is_zero
working-Inv = record {
  in_sync = reported_on-InSync reading_and_writing both refl;
  input = omega arith;
  output = omega arith;
  established = refl;
  urgent = λ up. refl;
  writing = λ up. refl;
}

hung_up-Inv : Inv list_kernel counter hung_up
unfolding is_zero
hung_up-Inv = record {
  in_sync = reported_on-InSync reading half_closed refl;
  input = omega arith;
  output = omega arith;
  established = refl;
  urgent = λ up. refl;
  writing = λ up. refl;
}

abbrev two_bytes : ℕ → ReadResult
two_bytes room = received (1 ∷ 2 ∷ [])

abbrev keep : Buffer → Outcome Buffer
keep b = ok b

dispatch_lem_example :
    (d : Connection list_kernel counter) × (dispatch list_kernel counter two_bytes keep
        (wrote 3)
        true
        working
      ≡ ok d)
    × Inv list_kernel counter d
    × Ends list_kernel counter working d
dispatch_lem_example =
    dispatch_lem list_kernel counter two_bytes keep (wrote 3) working (λ b v. (b, refl, v))
      working-Inv refl (ground arith) (omega arith) (omega arith) (inr refl) refl

hangup-aborts_example : dispatch list_kernel counter two_bytes keep (wrote 3) true hung_up ≡ aborts
hangup-aborts_example =
    hangup-aborts list_kernel counter two_bytes keep (wrote 3) hung_up hung_up-Inv refl refl refl

-- A server that was not started, on descriptor 3.
abbrev new_server : TcpServerSingle list_kernel counter
new_server = record {
  accept_fd = 3;
  loop_fds = λ fd. fd == 4;
  poller = record {
    kernel = update (λ fd. none) 4 (some reading);
    channels = update unused 4 (channel_with reading true 4);
    max_events = 128;
    errors = 0;
  };
  table = λ fd. fresh;
  connections = λ fd. false;
  notifies = true;
  calls = 0;
}

new_server-IsNew : IsNew list_kernel counter new_server
unfolding is_zero
new_server-IsNew = record {
  in_sync = record {
    own_fd = λ j. ground arith;
    listed = λ j. ground arith;
    polled = λ j. ground arith;
    no_errors = refl;
  };
  alone = λ fd. refl;
  unpolled = λ fd foreign. ground (arith, foreign);
  loop_polled = λ fd is_own. ground (arith, is_own);
  apart = refl;
}

-- A connection is accepted and then closed by its user.
abbrev events : List (TcpServerSingle.Event list_kernel counter)
events = accepted 7 loop ∷ called 7 (forces_close true) ∷ []

events-AllAllowed :
    (t : TcpServerSingle list_kernel counter)
    → start list_kernel counter new_server ≡ ok t
    → AllAllowed list_kernel counter t events
unfolding start step new_connection
events-AllAllowed t e = (
  (ground (arith, e), λ q. absurd (ground (arith, e, q)), ground (arith, e)),
  λ u made. ((ground (arith, made), tt), λ w done. tt),
)

serve_lem_example :
    (t : TcpServerSingle list_kernel counter) × ((start list_kernel counter new_server >>= λ x.
    run list_kernel counter x events)
      ≡ ok t)
    × Members.Inv list_kernel counter t
serve_lem_example =
    serve_lem list_kernel counter new_server events new_server-IsNew events-AllAllowed
