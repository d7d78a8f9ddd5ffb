-- ===== src/Muduo/Echo.antt =====
-- project/testmymuduo/testmuduo.cc: the echo server. A client's first message is sent back, and the connection is shut
-- down behind it.
pub mod Echoed
pub mod Run
mod Tests
use alexproject.Common.{
  ℕ, Bool, true, false, List, [], ◌∷◌, ◌++◌, Option, none, some, if◌then◌else◌, ◌>>=◌,
}
use alexproject.Common.Decimal.{Text}
use alexproject.Common.Literal.{codes}
use alexproject.Muduo.Buffer.{Buffer, ReadResult, got, retrieve_all_as_string}
use alexproject.Muduo.TcpConnection.{
  TcpConnection, Result, WriteResult, Effect, run_message_callback, send, shutdown, handle_read,
  handle_write,
}
use alexproject.Muduo.TcpServer.{TcpServer, Call, new_server, start_server}
use alexproject.Muduo.ThreadPool.{new_thread_pool, set_thread_num}

-- The constructor, which asks for three threads, and `start`, with the addresses of the loops that the threads make.
new_echo_server : Text → Text → ℕ → TcpServer
new_echo_server ip_port name loop =
    new_server ip_port name (set_thread_num (new_thread_pool loop name) 3)

start_echo : (ℕ → ℕ) → TcpServer → TcpServer × List Call
start_echo start_loop s = start_server start_loop false s

-- What `onConnection` logs of a connection and its peer.
on_echo_connection : Bool → Text → Text
on_echo_connection up peer = codes (if up then "Connection UP : " else "Connection DOWN : ") ++ peer

-- `send` and `shutdown` of `onMessage`, with what `retrieveAllAsString` returned and left.
pub echo : TcpConnection → WriteResult → List ℕ × Buffer → Result
unfolding send shutdown
echo conn w (msg, rest) =
    let (sent, es) = send true (record conn { input_buffer = rest }) msg w in
    let (shut, fs) = shutdown true sent in (shut, es ++ fs)

-- `onMessage`, where `write` returns `w`; `none` where `retrieveAllAsString` throws.
pub echo_message : TcpConnection → WriteResult → Option Result
unfolding echo
echo_message conn w = do
  retrieved ← retrieve_all_as_string conn.input_buffer
  some (echo conn w retrieved)

abbrev pub has_message : List Effect → Bool
has_message [] = false
has_message (run_message_callback ∷ es) = true
has_message (_ ∷ es) = has_message es

-- `handleRead` of a connection whose message callback is `onMessage`.
pub echo_read : TcpConnection → ReadResult → WriteResult → Option Result
unfolding handle_read echo_message
echo_read conn r w =
    let (after, es) = handle_read conn r in
    if has_message es
    then (echo_message after w >>= λ out. some (out.0, es ++ out.1))
    else some (after, es)

-- What the poller reports of the connection: input with the bytes that `readv` gives and what `write` returns for the
-- echo, or output with what `write` returns.
pub data Event : Type 0 where
  arrives : List ℕ → WriteResult → Event
  drains : WriteResult → Event

abbrev pub echo_event : TcpConnection → Event → Option Result
echo_event conn (arrives chunk w) = echo_read conn (got chunk) w
echo_event conn (drains w) = some (handle_write conn w)

abbrev pub echo_events : TcpConnection → List Event → Option Result
echo_events conn [] = some (conn, [])
echo_events conn (event ∷ events) = do
  out ← echo_event conn event
  last ← echo_events out.0 events
  some (last.0, out.1 ++ last.1)
