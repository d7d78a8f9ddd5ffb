-- ===== src/Muduo/TcpConnection.antt =====
-- project/MyMuduo/TcpConnection.h and TcpConnection.cc: one connection and its two buffers. Every
-- method returns the connection and what it did outside, in order.
pub mod Invariant
pub mod Send
pub mod Write
pub mod Life
pub mod History
pub mod Marks
pub mod Watched
mod Tests
use alexproject.Common.{
  ℕ, ◌*◌, Bool, true, false, not, ◌&&◌, ◌||◌, List, [], ◌∷◌, ◌++◌, Option, none, some, ◌==◌, ltb,
  leb, if◌then◌else◌, length, take, drop, add_size,
}
use alexproject.Muduo.Buffer.{
  Buffer, readable_bytes, retrieve, append, read_fd, write_fd, ReadResult, new_buffer,
  k_initial_size,
}
use alexproject.Muduo.Channel.{
  with_reading, with_writing, without_writing, is_writing, k_none_event,
}

pub data State : Type 0 where
  k_disconnected k_connecting k_connected k_disconnecting : State

-- The connection, message and close callbacks are set by the server before the connection is used;
-- the other two are flags. `events` is the channel's.
pub record TcpConnection : Type 0 where
  pub state : State
  pub reading : Bool
  pub events : ℕ
  pub tied : Bool
  pub input_buffer : Buffer
  pub output_buffer : Buffer
  pub high_water_mark : ℕ
  pub write_complete_callback : Bool
  pub high_water_mark_callback : Bool

unfoldable pub new_connection : Bool → Bool → TcpConnection
new_connection write_complete high_water = record {
  state = k_connecting;
  reading = true;
  events = k_none_event;
  tied = false;
  input_buffer = new_buffer k_initial_size;
  output_buffer = new_buffer k_initial_size;
  high_water_mark = 64 * 1024 * 1024;
  write_complete_callback = write_complete;
  high_water_mark_callback = high_water;
}

-- A callback's own calls of this connection are further calls of the methods below: no method reads the
-- connection again after it has run one.
pub data Effect : Type 0 where
  -- `write` took these bytes.
  wrote : List ℕ → Effect
  update_channel : ℕ → Effect
  remove_channel : Effect
  shutdown_write : Effect
  queue_write_complete : Effect
  queue_high_water : ℕ → Effect
  -- Calls handed to the loop's thread.
  queue_send : List ℕ → Effect
  queue_shutdown : Effect
  run_connection_callback run_message_callback run_close_callback : Effect
  log_error : Effect

abbrev pub Result : Type 0
Result = TcpConnection × List Effect

-- What `write` returns, 0 for a negative number, since the code treats them alike; and `errno`.
pub record WriteResult : Type 0 where
  pub count : ℕ
  pub errno : ℕ

abbrev pub ewouldblock : ℕ
ewouldblock = 11

abbrev pub epipe : ℕ
epipe = 32

abbrev pub econnreset : ℕ
econnreset = 104

abbrev pub is_state : State → State → Bool
is_state k_disconnected k_disconnected = true
is_state k_connecting k_connecting = true
is_state k_connected k_connected = true
is_state k_disconnecting k_disconnecting = true
is_state _ _ = false

-- The end of `sendInLoop`: `rest` goes to the output buffer.
buffer_rest : TcpConnection → List ℕ → Result
buffer_rest c rest =
    let old_len = readable_bytes c.output_buffer in
    let total = add_size old_len (length rest) in
    let mark =
      if leb c.high_water_mark total && ltb old_len c.high_water_mark && c.high_water_mark_callback
      then queue_high_water total ∷ []
      else [] in
    let filled = record c { output_buffer = append c.output_buffer rest } in
    if length rest == 0 then (c, []) else if is_writing c.events then (filled, mark) else (
      record filled { events = with_writing c.events },
      mark ++ update_channel (with_writing c.events) ∷ [],
    )

-- The first, direct write of `sendInLoop`.
write_now : TcpConnection → List ℕ → WriteResult → Result
unfolding buffer_rest
write_now c chunk r =
    let rest = drop r.count chunk in
    let (after, more) = buffer_rest c rest in
    let (kept, buffered) = buffer_rest c chunk in
    if ltb 0 r.count
    then (
      after,
      wrote (take r.count chunk)
          ∷ ((if length rest == 0 && c.write_complete_callback
                then queue_write_complete ∷ []
                else [])
              ++ more),
    )
    else if r.errno == ewouldblock
    then (kept, buffered)
    else if r.errno == epipe || r.errno == econnreset
    then (c, log_error ∷ [])
    else (kept, log_error ∷ buffered)

unfoldable pub send_in_loop : TcpConnection → List ℕ → WriteResult → Result
unfolding write_now
send_in_loop c chunk r =
    if is_state c.state k_disconnected
    then (c, log_error ∷ [])
    else if not (is_writing c.events) && readable_bytes c.output_buffer == 0
    then write_now c chunk r
    else buffer_rest c chunk

unfoldable pub send : Bool → TcpConnection → List ℕ → WriteResult → Result
unfolding send_in_loop
send in_loop_thread c chunk r =
    if is_state c.state k_connected
    then (if in_loop_thread then send_in_loop c chunk r else (c, queue_send chunk ∷ []))
    else (c, [])

unfoldable pub shutdown_in_loop : TcpConnection → Result
shutdown_in_loop c = (c, if is_writing c.events then [] else shutdown_write ∷ [])

unfoldable pub shutdown : Bool → TcpConnection → Result
unfolding shutdown_in_loop
shutdown in_loop_thread c =
    if is_state c.state k_connected
    then (if in_loop_thread
        then shutdown_in_loop (record c { state = k_disconnecting })
        else (record c { state = k_disconnecting }, queue_shutdown ∷ []))
    else (c, [])

unfoldable pub connect_established : TcpConnection → Result
connect_established c = (
  record c { state = k_connected; tied = true; events = with_reading c.events },
  update_channel (with_reading c.events) ∷ run_connection_callback ∷ [],
)

unfoldable pub connect_destroyed : TcpConnection → Result
connect_destroyed c =
    if is_state c.state k_connected
    then (
      record c { state = k_disconnected; events = k_none_event },
      update_channel k_none_event ∷ run_connection_callback ∷ remove_channel ∷ [],
    )
    else (c, remove_channel ∷ [])

unfoldable pub handle_close : TcpConnection → Result
handle_close c = (
  record c { state = k_disconnected; events = k_none_event },
  update_channel k_none_event ∷ run_connection_callback ∷ run_close_callback ∷ [],
)

-- `handleError` asks for the socket's error and logs it.
unfoldable pub handle_error : TcpConnection → Result
handle_error c = (c, log_error ∷ [])

read_outcome : TcpConnection → Option ℕ → Result
unfolding handle_error handle_close
read_outcome c none = let (c', es) = handle_error c in (c', log_error ∷ es)
read_outcome c (some n) = if ltb 0 n then (c, run_message_callback ∷ []) else handle_close c

unfoldable pub handle_read : TcpConnection → ReadResult → Result
unfolding read_outcome
handle_read c r =
    let (n, errno, filled) = read_fd c.input_buffer r in
    read_outcome (record c { input_buffer = filled }) n

-- The bytes that `writeFd` hands to `write`.
offered : Buffer → List ℕ
offered b = elim (write_fd b) [ none ↦ [] | some chunk ↦ chunk ]

-- What follows once the output buffer is empty.
drained : TcpConnection → Result
unfolding shutdown_in_loop
drained c =
    let quiet = record c { events = without_writing c.events } in
    (
      quiet,
      update_channel (without_writing c.events)
          ∷ ((if c.write_complete_callback then queue_write_complete ∷ [] else [])
              ++ (if is_state c.state k_disconnecting then (shutdown_in_loop quiet).1 else [])),
    )

unfoldable pub handle_write : TcpConnection → WriteResult → Result
unfolding offered drained
handle_write c r =
    let left = record c { output_buffer = retrieve c.output_buffer r.count } in
    let (quiet, es) = drained left in
    let chunk = take r.count (offered c.output_buffer) in
    if is_writing c.events
    then (if ltb 0 r.count
        then (if readable_bytes left.output_buffer == 0
            then (quiet, wrote chunk ∷ es)
            else (left, wrote chunk ∷ []))
        else (c, log_error ∷ []))
    else (c, log_error ∷ [])
