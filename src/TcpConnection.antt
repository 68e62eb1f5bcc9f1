-- ===== src/TcpConnection.antt =====
-- TcpConnection.h and TcpConnection.cpp: a connection with its two buffers, its channel and its
-- loop. What write(2) answers is an argument of the calls that write. Log lines are left out.
pub mod Invariant
pub mod Output
pub mod Drain
pub mod Flush
pub mod Close
pub mod Input
pub mod Dispatch
pub mod Frame
pub mod Lifetime
pub mod Send
use cc_server.Prelude.{
  ℕ, ◌+◌, ◌-◌, ◌≤◌, Bool, true, false, not, ◌≡◌, ◌==◌, ◌&&◌, ◌||◌, List, [], ◌∷◌, ◌++◌, Option,
  none, some, if◌then◌else◌, ltb, leb, length, take, drop,
}
use cc_server.Prelude.Outcome.{Outcome, ok, assert, ◌>>=◌, ◌>>◌, add_size, sub_size}
use cc_server.Buffer.{
  Buffer, append, retrieve, readable_bytes, retrieve_all, retrieve_all_as_string, copy_from, peek,
}
use cc_server.Buffer.ReadFd.{ReadResult, ReadFd, read_fd}
use cc_server.Channel.{
  Channel, Change, enable_read, enable_write, disable_read, disable_write, disable_all, is_writing,
  is_reading, tie,
}
use cc_server.Epoll.{EpollKernel, Poller, change, store}
use cc_server.EventLoop.{EventFd, Loop, queue_in_loop}

pub data ConnectionState : Type 0 where
  connecting connected disconnecting disconnected : ConnectionState

-- What the code hands to `queueInLoop`.
pub data Deferred : Type 0 where
  write_complete : Deferred
  high_water : ℕ → Deferred
  send_later : List ℕ → Deferred
  shutdown_later : Deferred
  force_close_later : Deferred

pub data Errno : Type 0 where
  eagain epipe econnreset other_error : Errno

pub data WriteResult : Type 0 where
  wrote : ℕ → WriteResult
  write_failed : Errno → WriteResult

-- `errno == EPIPE || errno == ECONNRESET`
abbrev pub is_fault : Errno → Bool
is_fault epipe = true
is_fault econnreset = true
is_fault _ = false

abbrev pub is_connecting : ConnectionState → Bool
is_connecting connecting = true
is_connecting _ = false

abbrev pub is_connected : ConnectionState → Bool
is_connected connected = true
is_connected _ = false

abbrev pub is_disconnecting : ConnectionState → Bool
is_disconnecting disconnecting = true
is_disconnecting _ = false

abbrev pub is_disconnected : ConnectionState → Bool
is_disconnected disconnected = true
is_disconnected _ = false

abbrev pub first_of {ℓ} : {A : Type ℓ} → Option A → A → Option A
first_of none x = some x
first_of (some y) x = some y

module _ (epoll : EpollKernel) (eventfd : EventFd) where
  -- `sent` is what write(2) has taken so far, `shut_down` that shutdown(2) was called for writing,
  -- `closed_after` what write(2) had taken when that was first done,
  -- `messages` the number of calls of `messageCallback_`, `closes` that of `closeCallback_`.
  pub record Connection : Type 0 where
    pub state : ConnectionState
    pub fd : ℕ
    pub poller : Poller epoll
    pub loop : Loop eventfd Deferred
    pub input_buffer : Buffer
    pub output_buffer : Buffer
    pub high_water_mark : ℕ
    pub has_write_complete : Bool
    pub has_high_water : Bool
    pub sent : List ℕ
    pub shut_down : Bool
    pub closed_after : Option (List ℕ)
    pub messages : ℕ
    pub closes : ℕ

  abbrev pub channel : Connection → Channel
  channel c = c.poller.channels c.fd

  abbrev pub set_channel : Change → Connection → Outcome Connection
  set_channel ch c = do p ← change epoll c.poller c.fd ch; ok (record c { poller = p })

  abbrev pub queue : Bool → Deferred → Connection → Connection
  queue in_thread task c = record c { loop = queue_in_loop eventfd Deferred in_thread task c.loop }

  unfoldable pub connect_established : Connection → Outcome Connection
  connect_established c = do
    assert (is_connecting c.state)
    let tied : Connection = record c {
      state = connected;
      poller = store epoll c.poller (tie (channel c));
    }
    set_channel enable_read tied

  -- The direct write of `sendInLoop`: the connection, the bytes that remain, and `faultError`.
  unfoldable pub write_now : WriteResult → List ℕ → Connection → Connection × List ℕ × Bool
  write_now (write_failed e) source c = (c, source, is_fault e)
  write_now (wrote n) source c =
      let taken : Connection = record c { sent = c.sent ++ take n source } in
      (
        if length source == n && c.has_write_complete
            then queue true write_complete taken
            else taken,
        drop n source,
        false,
      )

  -- The loop after the high water mark callback was queued, if the output grows past the mark.
  unfoldable pub note_high_water : ℕ → Connection → Loop eventfd Deferred
  note_high_water remain c =
      let old_len = readable_bytes c.output_buffer in
      let new_len = add_size old_len remain in
      if c.has_high_water && (ltb old_len c.high_water_mark && leb c.high_water_mark new_len)
      then queue_in_loop eventfd Deferred true (high_water new_len) c.loop
      else c.loop

  -- The end of `sendInLoop`: what remains goes to the output buffer.
  unfoldable pub keep_rest : List ℕ → Bool → Connection → Outcome Connection
  keep_rest rest fault c =
      if not fault && ltb 0 (length rest)
      then (do
        let noted : Connection = record c { loop = note_high_water (length rest) c }
        b ← append c.output_buffer rest
        set_channel enable_write (record noted { output_buffer = b }))
      else ok c

  unfoldable pub send_in_loop : WriteResult → List ℕ → Connection → Outcome Connection
  unfolding is_writing
  send_in_loop answer source c =
      if is_disconnected c.state
      then ok c
      else if not (is_writing (channel c))
      then (do
        assert (readable_bytes c.output_buffer == 0)
        let (c', rest, fault) = write_now answer source c
        keep_rest rest fault c')
      else keep_rest source false c

  -- `send(const char*, size_t)`
  unfoldable pub send : Bool → WriteResult → List ℕ → Connection → Outcome Connection
  send in_thread answer source c =
      if not (is_connected c.state)
      then ok c
      else if in_thread
      then send_in_loop answer source c
      else ok (queue false (send_later source) c)

  unfoldable pub shutdown_in_loop : Connection → Connection
  unfolding is_writing
  shutdown_in_loop c =
      if not (is_disconnected c.state) && not (is_writing (channel c))
      then record c { shut_down = true; closed_after = first_of c.closed_after c.sent }
      else c

  unfoldable pub shutdown : Bool → Connection → Outcome Connection
  shutdown in_thread c = do
    assert (not (is_disconnected c.state))
    let swapped : Connection = record c { state = disconnecting }
    if is_connected c.state
        then if in_thread
          then ok (shutdown_in_loop swapped)
          else ok (queue false shutdown_later swapped)
        else ok swapped

  unfoldable pub handle_close : Connection → Outcome Connection
  handle_close c = do
    assert (is_connected c.state || is_disconnecting c.state)
    c' ← set_channel disable_all (record c { state = disconnected })
    ok (record c' { closes = c.closes + 1 })

  -- Two threads may be between the test and the exchange: here the call is one step.
  unfoldable pub force_close : Bool → Connection → Connection
  force_close in_thread c =
      if not (is_disconnected c.state)
      then queue in_thread force_close_later (record c { state = disconnecting })
      else c

  unfoldable pub force_close_in_loop : Connection → Outcome Connection
  force_close_in_loop c = if not (is_disconnected c.state) then handle_close c else ok c

  -- The tasks of `stopRead` and `startRead`.
  unfoldable pub stop_read : Connection → Outcome Connection
  unfolding is_reading
  stop_read c = if is_reading (channel c) then set_channel disable_read c else ok c

  unfoldable pub start_read : Connection → Outcome Connection
  unfolding is_reading
  start_read c = if not (is_reading (channel c)) then set_channel enable_read c else ok c

  -- `message_callback` may take bytes out of the input buffer.
  unfoldable pub after_read : (Buffer → Outcome Buffer) → Option ℕ → Connection → Outcome Connection
  after_read message_callback none c = ok c
  after_read message_callback (some n) c = if n == 0 then handle_close c else (do
    b ← message_callback c.input_buffer
    ok (record c { input_buffer = b; messages = c.messages + 1 }))

  unfoldable pub handle_read :
      (ℕ → ReadResult) → (Buffer → Outcome Buffer) → Connection → Outcome Connection
  handle_read readv message_callback c = do
    assert (not (is_disconnected c.state))
    r ← read_fd readv c.input_buffer
    after_read message_callback r.count (record c { input_buffer = r.buffer })

  -- The end of `handleWrite`, when the output buffer ran empty.
  unfoldable pub output_drained : Connection → Outcome Connection
  unfolding shutdown_in_loop
  output_drained c = do
    c' ← set_channel disable_write c
    let c'' = if is_disconnecting c'.state then shutdown_in_loop c' else c'
    ok (if c''.has_write_complete then queue true write_complete c'' else c'')

  unfoldable pub after_write : WriteResult → List ℕ → Connection → Outcome Connection
  after_write (write_failed e) held c = ok c
  after_write (wrote n) held c = do
    b ← retrieve c.output_buffer n
    let c' : Connection = record c { output_buffer = b; sent = c.sent ++ take n held }
    if readable_bytes b == 0 then output_drained c' else ok c'

  unfoldable pub handle_write : WriteResult → Connection → Outcome Connection
  unfolding is_writing peek
  handle_write answer c = if is_disconnected c.state then ok c else (do
    assert (ltb 0 (readable_bytes c.output_buffer))
    assert (is_writing (channel c))
    held ← copy_from (peek c.output_buffer) (readable_bytes c.output_buffer) c.output_buffer.bytes
    after_write answer held c)
