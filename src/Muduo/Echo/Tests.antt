-- ===== src/Muduo/Echo/Tests.antt =====
-- The echo server on a new connection.
use alexproject.Common.{◌+◌, true, ◌≡◌, refl, false, List, [], ◌∷◌, some, arith}
use alexproject.Common.Literal.{codes}
use alexproject.Muduo.TcpServer.{TcpServer, Call, listen, new_server, start_server}
use alexproject.Muduo.ThreadPool.{new_thread_pool, set_thread_num, start}
use alexproject.Muduo.Echo.{
  new_echo_server, start_echo, on_echo_connection, Event, arrives, drains, echo_read, echo_events,
}
use alexproject.Muduo.Buffer.{
  new_buffer, k_initial_size, read_fd, retrieve_all_as_string, read_room,
}
use alexproject.Muduo.Buffer.Invariant.{contents, new_buffer-IsValid}
use alexproject.Muduo.Channel.{is_writing, with_reading, with_writing, without_writing}
use alexproject.Muduo.TcpConnection.{
  TcpConnection, Result, new_connection, connect_established, handle_write,
}
use alexproject.Muduo.TcpConnection.Invariant.{Inv}
use alexproject.Muduo.TcpConnection.History.{new_connection-Inv}
use alexproject.Muduo.TcpConnection.Life.{connect_established-Quiet}
use alexproject.Muduo.Echo.Echoed.{Echoed}
use alexproject.Muduo.Echo.Run.{first_message-Echoed}

abbrev established : TcpConnection
unfolding connect_established new_connection
established = (connect_established (new_connection false false)).0

empty : contents (new_buffer k_initial_size) ≡ []
empty = (new_buffer-IsValid k_initial_size (ground arith)).1

established-Inv : Inv established
unfolding new_connection established connect_established
established-Inv =
    (connect_established-Quiet (new_connection false false) (new_connection-Inv false false)
      refl).inv

-- The kernel takes one of two bytes at once and the other later; what comes in between is lost.
abbrev later : List Event
later =
    arrives (9 ∷ []) (record { count = 1; errno = 0 })
    ∷ drains (record { count = 1; errno = 0 })
    ∷ []

first_message-Echoed_example :
    (out : Result) × (echo_events established
        (arrives (7 ∷ 8 ∷ []) (record { count = 1; errno = 0 }) ∷ later)
      ≡ some out)
    × Echoed (7 ∷ 8 ∷ []) out.1 out.0
unfolding new_buffer read_fd read_room retrieve_all_as_string is_writing with_reading with_writing
    without_writing echo_read established handle_write
first_message-Echoed_example =
    first_message-Echoed established (7 ∷ 8 ∷ []) (record { count = 1; errno = 0 }) later
      established-Inv refl empty empty (omega arith) (omega arith) refl
      (((λ e. cc), (omega arith, omega arith)), (((λ e. cc), (omega arith, omega arith)), (tt, tt)))

-- The first start makes three loops and lets the acceptor listen.
abbrev started : TcpServer × List Call
unfolding start_echo new_echo_server
started =
    start_echo (λ i. i + 5) (new_echo_server (codes "127.0.0.1:8000") (codes "EchoServer01") 4)

three_loops : (started.0.pool.loops ≡ 5 ∷ 6 ∷ 7 ∷ []) × (started.1 ≡ listen ∷ [])
unfolding started new_server start_server new_thread_pool set_thread_num start
three_loops = (refl, refl)

up : on_echo_connection true (codes "a") ≡ codes "Connection UP : a"
unfolding on_echo_connection
up = refl
