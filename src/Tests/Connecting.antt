-- ===== src/Tests/Connecting.antt =====
-- A connection at concrete inputs, on descriptor 5.
use cc_server.Prelude.{ℕ, ◌≡◌, refl, List, [], ◌∷◌, true, false, none, some, arith, Bool}
use cc_server.Prelude.Outcome.{Outcome, ok}
use cc_server.Prelude.Map.{update}
use cc_server.Buffer.{Buffer, writable_bytes}
use cc_server.Buffer.ReadFd.{ReadResult, received, capacity}
use cc_server.Channel.{Events, Channel, no_events, is_zero}
use cc_server.Epoll.{Poller}
use cc_server.Epoll.Sync.{InSync}
use cc_server.EventLoop.{Loop}
use cc_server.TcpConnection.{
  Connection, Deferred, connecting, connected, disconnecting, wrote, send_in_loop, handle_write,
  handle_close, handle_read,
}
use cc_server.TcpConnection.Invariant.{Inv}
use cc_server.TcpConnection.Output.{stream, send_in_loop_lem}
use cc_server.TcpConnection.Drain.{Written, handle_write_lem}
use cc_server.TcpConnection.Close.{Closed, handle_close_lem, IsFresh}
use cc_server.TcpConnection.Input.{Reads, handle_read-Reads}
use cc_server.Tests.Kernel.{list_kernel, counter}

abbrev pub channel_with : Events → Bool → ℕ → Channel
channel_with e on fd = record {
  fd = fd;
  events = e;
  revents = no_events;
  polling = on;
  tied = false;
  handling_events = false;
}

abbrev pub unused : ℕ → Channel
unused = channel_with no_events false

-- A poller that waits for `e` on descriptor 5.
abbrev pub waiting_for : Events → Poller list_kernel
waiting_for e = record {
  kernel = update (λ fd. none) 5 (some e);
  channels = update unused 5 (channel_with e true 5);
  max_events = 128;
  errors = 0;
}

pub waiting_for-InSync : (e : Events) → is_zero e ≡ false → InSync list_kernel (waiting_for e)
unfolding is_zero
waiting_for-InSync e h = record {
  own_fd = λ j. ground arith;
  listed = λ j. ground arith;
  polled = λ j. ground arith;
  no_errors = refl;
}

abbrev pub loop : Loop counter Deferred
loop = record {
  looping = true;
  quitting = false;
  doing_pending_tasks = false;
  pending_tasks = [];
  wakeup_fd = 0;
}

abbrev storage : List ℕ
storage = 0 ∷ 0 ∷ 0 ∷ 0 ∷ 0 ∷ 0 ∷ 0 ∷ 0 ∷ 1 ∷ 2 ∷ 3 ∷ 4 ∷ []

abbrev pub empty_buffer : Buffer
empty_buffer = record { bytes = storage; reader_index = 8; writer_index = 8 }

-- Three bytes wait.
abbrev pub filled_buffer : Buffer
filled_buffer = record { bytes = storage; reader_index = 8; writer_index = 11 }

abbrev pub reading : Events
reading = record no_events { epoll_in = true; epoll_pri = true }

abbrev pub reading_and_writing : Events
reading_and_writing = record reading { epoll_out = true }

abbrev pub fresh : Connection list_kernel counter
fresh = record {
  state = connecting;
  fd = 5;
  poller = record { kernel = λ fd. none; channels = unused; max_events = 128; errors = 0 };
  loop = loop;
  input_buffer = empty_buffer;
  output_buffer = empty_buffer;
  high_water_mark = 0;
  has_write_complete = true;
  has_high_water = false;
  sent = [];
  shut_down = false;
  closed_after = none;
  messages = 0;
  closes = 0;
}

abbrev pub idle : Connection list_kernel counter
idle = record fresh { state = connected; poller = waiting_for reading }

abbrev pub busy : Connection list_kernel counter
busy = record fresh {
  state = disconnecting;
  poller = waiting_for reading_and_writing;
  output_buffer = filled_buffer;
}

fresh-IsFresh : IsFresh list_kernel counter fresh
unfolding is_zero
fresh-IsFresh = record {
  in_sync = record { own_fd = λ j. refl; listed = λ j. refl; polled = λ j. refl; no_errors = refl };
  input = omega arith;
  output = omega arith;
  empty = refl;
  state = refl;
  unused = refl;
}

pub idle-Inv : Inv list_kernel counter idle
unfolding is_zero
idle-Inv = record {
  in_sync = waiting_for-InSync reading refl;
  input = omega arith;
  output = omega arith;
  established = refl;
  urgent = λ up. refl;
  writing = λ up. refl;
}

pub busy-Inv : Inv list_kernel counter busy
unfolding is_zero
busy-Inv = record {
  in_sync = waiting_for-InSync reading_and_writing refl;
  input = omega arith;
  output = omega arith;
  established = refl;
  urgent = λ up. refl;
  writing = λ up. refl;
}

-- write(2) takes one byte of three.
send_in_loop_lem_example :
    (c' : Connection list_kernel counter) × (send_in_loop list_kernel counter
        (wrote 1)
        (7 ∷ 8 ∷ 9 ∷ [])
        idle
      ≡ ok c')
    × Inv list_kernel counter c'
    × (c'.state ≡ connected)
    × (stream list_kernel counter c' ≡ 7 ∷ 8 ∷ 9 ∷ [])
send_in_loop_lem_example =
    send_in_loop_lem list_kernel counter (wrote 1) (7 ∷ 8 ∷ 9 ∷ []) idle idle-Inv refl (omega arith)
      (omega arith)

handle_write_lem_example :
    (c' : Connection list_kernel counter) × (handle_write list_kernel counter (wrote 3) busy
      ≡ ok c')
    × Written list_kernel counter busy c'
handle_write_lem_example =
    handle_write_lem list_kernel counter (wrote 3) busy busy-Inv refl refl (omega arith)

handle_close_lem_example :
    (c' : Connection list_kernel counter) × (handle_close list_kernel counter busy ≡ ok c')
    × Closed list_kernel counter busy c'
handle_close_lem_example = handle_close_lem list_kernel counter busy busy-Inv refl

-- A kernel with two bytes, and a callback that leaves them.
abbrev two : ℕ → ReadResult
two room = received (1 ∷ 2 ∷ [])

abbrev look : Buffer → Outcome Buffer
look b = ok b

handle_read-Reads_example :
    Reads list_kernel counter look idle
      (two (capacity (writable_bytes empty_buffer)))
      (handle_read list_kernel counter two look idle)
handle_read-Reads_example =
    handle_read-Reads list_kernel counter two look idle (λ b v. (b, refl, v)) idle-Inv refl
      (ground arith) (omega arith)
