-- ===== src/Muduo/Reactor/Tests.antt =====
-- A connection on a poller that is a table.
use alexproject.Common.{ℕ, ◌≡◌, refl, true, false, List, [], ◌∷◌, some, arith}
use alexproject.Muduo.Channel.{
  Channel, new_channel, is_writing, with_reading, with_writing, is_none_event,
}
use alexproject.Muduo.Poller.{ok, new_poller, set_events, remove_channel}
use alexproject.Muduo.Poller.Table.{table}
use alexproject.Muduo.TcpConnection.{
  TcpConnection, new_connection, connect_established, connect_destroyed, send_in_loop, handle_close,
}
use alexproject.Muduo.Buffer.{new_buffer, readable_bytes, append}
use alexproject.Muduo.TcpConnection.History.{deliver, close}
use alexproject.Muduo.Reactor.{
  Reactor, Action, opens, calls, drops, run_actions, open_connection, call_connection,
  drop_connection,
}
use alexproject.Muduo.Reactor.Interest.{Watches, new_reactor, reactor-Watches}

abbrev unused : ℕ → Channel
unfolding new_channel
unused c = new_channel 0

-- Connection 4 on descriptor 9 sends two bytes, of which the kernel takes one; connection 5 comes and goes.
abbrev actions : List Action
actions =
    opens 4 9 true false
    ∷ calls 4 (deliver (7 ∷ 8 ∷ []) (record { count = 1; errno = 0 }))
    ∷ opens 5 10 false false
    ∷ calls 5 close
    ∷ drops 5
    ∷ []

reactor-Watches_example :
    (t : Reactor table) × (run_actions table (new_reactor table unused) actions ≡ ok t)
    × ((c : ℕ) (conn : TcpConnection) → t.connections c ≡ some conn → Watches table t c conn)
unfolding unused new_poller open_connection connect_established set_events new_connection new_buffer
    call_connection drop_connection send_in_loop is_writing with_reading readable_bytes
    is_none_event with_writing handle_close remove_channel connect_destroyed append
reactor-Watches_example =
    reactor-Watches table unused actions (λ c. refl)
      (
        (refl, refl),
        (
          (_, refl, (omega arith, omega arith), tt),
          ((refl, refl), ((_, refl, tt, tt), ((_, refl), tt))),
        ),
      )
