-- ===== src/Muduo/TcpConnection/Tests.antt =====
-- Tests of the connection.
use alexproject.Common.{
  length, ℕ, ◌<◌, ◌≡◌, refl, inl, inr, ◌↔◌, true, false, List, [], ◌∷◌, ◌++◌, arith,
}
use alexproject.Muduo.Buffer.{Buffer, new_buffer, readable_bytes, append, retrieve, new_buffer}
use alexproject.Muduo.Channel.{is_writing, without_writing}
use alexproject.Muduo.TcpConnection.{
  TcpConnection, k_connected, k_disconnecting, new_connection, WriteResult, send, send_in_loop,
  connect_established, handle_write,
}
use alexproject.Muduo.TcpConnection.Invariant.{marks, Inv, pending, written, shuts}
use alexproject.Muduo.TcpConnection.Marks.{heard, send_in_loop-marks}
use alexproject.Muduo.TcpConnection.Send.{Streams, send_in_loop-Streams}
use alexproject.Muduo.TcpConnection.Write.{handle_write-Streams, handle_write-shuts}
use alexproject.Muduo.TcpConnection.History.{
  Op, establish, deliver, writable, begin_shutdown, Legal, run, all_accepted, new_connection-run,
}

abbrev empty : Buffer
empty = record {
  bytes = 0 ∷ 0 ∷ 0 ∷ 0 ∷ 0 ∷ 0 ∷ 0 ∷ 0 ∷ 0 ∷ 0 ∷ [];
  reader_index = 8;
  write_index = 8;
}

-- Connected, with nothing to write.
abbrev idle : TcpConnection
idle = record {
  state = k_connected;
  reading = true;
  events = 3;
  tied = true;
  input_buffer = empty;
  output_buffer = empty;
  high_water_mark = 2;
  write_complete_callback = true;
  high_water_mark_callback = true;
}

-- The bytes 5 and 6 wait, and a shutdown waits for them.
abbrev closing : TcpConnection
closing = record idle {
  state = k_disconnecting;
  events = 7;
  output_buffer = record empty {
    bytes = 0 ∷ 0 ∷ 0 ∷ 0 ∷ 0 ∷ 0 ∷ 0 ∷ 0 ∷ 5 ∷ 6 ∷ [];
    write_index = 10;
  };
}

idle-Inv : Inv idle
unfolding is_writing readable_bytes
idle-Inv = record {
  output_valid = omega arith;
  input_valid = omega arith;
  mask = inr (inl refl);
  writing = λ w. ground arith;
  idle = λ _ _. refl;
  closed = λ _. refl;
}

closing-Inv : Inv closing
unfolding is_writing readable_bytes
closing-Inv = record {
  output_valid = omega arith;
  input_valid = omega arith;
  mask = inr (inr (inr refl));
  writing = λ _ e. ground arith;
  idle = λ q. ground arith;
  closed = λ e. ground arith;
}

abbrev input : List ℕ
input = 1 ∷ []

-- The kernel takes one byte of three.
abbrev one_byte : WriteResult
one_byte = record { count = 1; errno = 0 }

partial_write :
    (pending (send true idle (7 ∷ 8 ∷ 9 ∷ []) one_byte).0 ≡ 8 ∷ 9 ∷ [])
    × (written (send true idle (7 ∷ 8 ∷ 9 ∷ []) one_byte).1 ≡ 7 ∷ [])
unfolding send is_writing readable_bytes append
partial_write = (refl, refl)

send_in_loop-Streams_example :
    Streams idle (7 ∷ 8 ∷ 9 ∷ []) (send_in_loop idle (7 ∷ 8 ∷ 9 ∷ []) one_byte)
unfolding is_writing readable_bytes
send_in_loop-Streams_example =
    send_in_loop-Streams idle (7 ∷ 8 ∷ 9 ∷ []) one_byte idle-Inv (ground arith) (omega arith)

handle_write-Streams_example : Streams closing [] (handle_write closing one_byte)
handle_write-Streams_example = handle_write-Streams closing one_byte closing-Inv

handle_write-shuts_example : (shuts (handle_write closing one_byte).1 ≡ true) ↔ (
    (is_writing 7 ≡ true)
    × (0 < 1)
    × (pending (handle_write closing one_byte).0 ≡ [])
    × (k_disconnecting ≡ k_disconnecting))
handle_write-shuts_example = handle_write-shuts closing one_byte closing-Inv

drained_then_shut : shuts (handle_write closing (record { count = 2; errno = 0 })).1 ≡ true
unfolding handle_write retrieve readable_bytes is_writing without_writing
drained_then_shut = refl

abbrev fresh : TcpConnection
fresh = new_connection true false

abbrev script : List Op
script =
    establish
    ∷ deliver (7 ∷ 8 ∷ 9 ∷ []) one_byte
    ∷ begin_shutdown true
    ∷ writable (record { count = 2; errno = 0 })
    ∷ []

script-Legal : Legal fresh script
unfolding new_connection connect_established new_buffer
script-Legal = (refl, ((ground arith, omega arith), (tt, (tt, tt))))

new_connection-run_example :
    written (run fresh script).1 ++ pending (run fresh script).0 ≡ all_accepted fresh script
new_connection-run_example = new_connection-run true false script script-Legal

send_in_loop-marks_example :
    marks (send_in_loop idle (7 ∷ 8 ∷ 9 ∷ []) one_byte).1
    ≡ heard idle 0 (length (pending (send_in_loop idle (7 ∷ 8 ∷ 9 ∷ []) one_byte).0))
send_in_loop-marks_example =
    send_in_loop-marks idle (7 ∷ 8 ∷ 9 ∷ []) one_byte idle-Inv (omega arith)

mark_reached : marks (send_in_loop idle (7 ∷ 8 ∷ 9 ∷ []) one_byte).1 ≡ 2 ∷ []
unfolding send_in_loop is_writing readable_bytes
mark_reached = refl
