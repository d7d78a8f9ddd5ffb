-- ===== src/Muduo/Reactor.antt =====
-- The connections of one loop on its poller: project/MyMuduo/TcpConnection.cc, Channel.cc and EventLoop.cc. The channel
-- of a connection has the number under which the connection is kept.
pub mod Calls
pub mod Wiring
pub mod Interest
mod Tests
use alexproject.Common.{ℕ, Bool, true, List, [], ◌∷◌, Option, none, some}
use alexproject.Muduo.Channel.{Channel, new_channel, tie, k_new}
use alexproject.Muduo.Poller.Kernel.{Epoll}
use alexproject.Muduo.Poller.{
  Poller, new_poller, Outcome, ok, fatal, ◌>>=◌, update_at, set_events, remove_channel, install,
}
use alexproject.Muduo.TcpConnection.{
  TcpConnection, new_connection, Effect, update_channel, connect_established, connect_destroyed,
}
use alexproject.Muduo.TcpConnection
use alexproject.Muduo.TcpConnection.History.{Op, step}

-- The channel of a connection, with the callbacks that the constructor of `TcpConnection` sets.
pub connection_channel : ℕ → Channel
unfolding new_channel tie
connection_channel sockfd = tie (record (new_channel sockfd) {
  read_callback = true;
  write_callback = true;
  close_callback = true;
  error_callback = true;
})

-- What the loop's thread does with its connections.
pub data Action : Type 0 where
  opens : ℕ → ℕ → Bool → Bool → Action
  calls : ℕ → Op → Action
  drops : ℕ → Action

module _ (K : Epoll) where
  pub record Reactor : Type 0 where
    pub poller : Poller K
    pub connections : ℕ → Option TcpConnection

  -- `channel_->update()` and `channel_->remove()` go through the loop to the poller; what else a method does has no
  -- part in it.
  pub apply : Poller K → ℕ → List Effect → Outcome (Poller K)
  apply p c [] = ok p
  apply p c (update_channel events ∷ es) = set_events K p c events >>= λ q. apply q c es
  apply p c (TcpConnection.remove_channel ∷ es) = remove_channel K p c >>= λ q. apply q c es
  apply p c (_ ∷ es) = apply p c es

  -- A new connection on `sockfd`, and `connectEstablished` in the loop's thread.
  pub open_connection : Reactor → ℕ → ℕ → Bool → Bool → Outcome Reactor
  unfolding apply connection_channel install
  open_connection r c sockfd write_complete high_water =
      let (conn, es) = connect_established (new_connection write_complete high_water) in
      do
        p ← apply (install K r.poller c (connection_channel sockfd)) c es
        ok (record { poller = p; connections = update_at r.connections c (some conn) })

  -- A call of a method of connection `c`. `fatal` where the connection is gone.
  pub call_connection : Reactor → ℕ → Op → Outcome Reactor
  unfolding apply
  call_connection r c op = elim (r.connections c) [
    | none ↦ fatal
    | some conn ↦ (do
      p ← apply r.poller c (step conn op).1
      ok (record { poller = p; connections = update_at r.connections c (some (step conn op).0) }))
  ]

  -- `connectDestroyed`, and the destructor once nobody holds the connection.
  pub drop_connection : Reactor → ℕ → Outcome Reactor
  unfolding apply
  drop_connection r c = elim (r.connections c) [
    | none ↦ fatal
    | some conn ↦ (do
      p ← apply r.poller c (connect_destroyed conn).1
      ok (record { poller = p; connections = update_at r.connections c none }))
  ]

  abbrev pub act : Reactor → Action → Outcome Reactor
  act r (opens c sockfd write_complete high_water) =
      open_connection r c sockfd write_complete high_water
  act r (calls c op) = call_connection r c op
  act r (drops c) = drop_connection r c

  abbrev pub run_actions : Reactor → List Action → Outcome Reactor
  run_actions r [] = ok r
  run_actions r (a ∷ rest) = act r a >>= λ t. run_actions t rest
