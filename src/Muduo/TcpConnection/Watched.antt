-- ===== src/Muduo/TcpConnection/Watched.antt =====
-- What the methods of a connection tell the poller, against the events that its channel asks for.
use alexproject.Common.{
  ℕ, ◌≡◌, ◌≢◌, ◌⊎◌, refl, sym, ◌∙◌, Bool, true, false, List, [], ◌∷◌, Option, none, some, inl, inr,
  arith, Bool-cases, drop,
}
use alexproject.Muduo.Buffer.{ReadResult, read_fd}
use alexproject.Muduo.Channel.{is_reading, is_writing}
use alexproject.Muduo.Channel.Events.{IsMask, events_lem}
use alexproject.Muduo.TcpConnection.{
  TcpConnection, k_disconnected, k_connected, Effect, Result, WriteResult, update_channel,
  remove_channel, run_connection_callback, buffer_rest, write_now, send_in_loop, shutdown,
  shutdown_in_loop, connect_established, handle_close, handle_read, read_outcome, drained,
  handle_write, connect_destroyed, new_connection, is_state,
}
use alexproject.Muduo.TcpConnection.Invariant.{Inv}
use alexproject.Muduo.TcpConnection.Send.{send_in_loop-Streams}
use alexproject.Muduo.TcpConnection.Write.{handle_write-Streams}
use alexproject.Muduo.TcpConnection.Life.{connect_established-Quiet}
use alexproject.Muduo.TcpConnection.History.{
  Op, establish, deliver, writable, readable, close, begin_shutdown, finish_shutdown, destroy, step,
  Allowed, new_connection-Inv,
}

-- The events that the channel asks for once these effects have happened.
abbrev pub last_events : ℕ → List Effect → ℕ
last_events e [] = e
last_events e (update_channel e' ∷ es) = last_events e' es
last_events e (_ ∷ es) = last_events e es

abbrev pub removes : List Effect → Bool
removes [] = false
removes (remove_channel ∷ es) = true
removes (_ ∷ es) = removes es

-- A connection that is not closed asks for input.
abbrev pub Listens : TcpConnection → Type 0
Listens c = c.state ≢ k_disconnected → is_reading c.events ≡ true

-- A call that tells the poller every change of the events, keeps the channel, and goes on listening.
pub record Watched (c : TcpConnection) (out : Result) : Type 0 where
  pub told : last_events c.events out.1 ≡ out.0.events
  pub kept : removes out.1 ≡ false
  pub listens : IsMask c.events → Listens c → Listens out.0

buffer_rest-Watched : (c : TcpConnection) (rest : List ℕ) → Watched c (buffer_rest c rest)
unfolding buffer_rest
buffer_rest-Watched c rest = record {
  told = ground arith;
  kept = ground arith;
  listens = λ m l live. ground (arith, (events_lem c.events m).2, l);
}

write_now-Watched :
    (c : TcpConnection) (chunk : List ℕ) (r : WriteResult) → Watched c (write_now c chunk r)
unfolding write_now
write_now-Watched c chunk r =
    let rest = buffer_rest-Watched c (drop r.count chunk) in
    let all = buffer_rest-Watched c chunk in
    record {
      told = ground (arith, rest.told, all.told);
      kept = ground (arith, rest.kept, all.kept);
      listens = λ m l live. ground (arith, rest.listens m l, all.listens m l, l);
    }

send_in_loop-Watched :
    (c : TcpConnection) (chunk : List ℕ) (r : WriteResult) → Watched c (send_in_loop c chunk r)
unfolding send_in_loop
send_in_loop-Watched c chunk r =
    let now = write_now-Watched c chunk r in
    let later = buffer_rest-Watched c chunk in
    record {
      told = ground (arith, now.told, later.told);
      kept = ground (arith, now.kept, later.kept);
      listens = λ m l live. ground (arith, now.listens m l, later.listens m l, l);
    }

shutdown_in_loop-Watched : (c : TcpConnection) → Watched c (shutdown_in_loop c)
unfolding shutdown_in_loop
shutdown_in_loop-Watched c = record {
  told = ground arith;
  kept = ground arith;
  listens = λ m l live. l live;
}

shutdown-Watched : (b : Bool) (c : TcpConnection) → Watched c (shutdown b c)
unfolding shutdown
shutdown-Watched b c = record {
  told = ground arith;
  kept = ground arith;
  listens = λ m l live. ground (arith, l);
}

handle_close-Watched : (c : TcpConnection) → Watched c (handle_close c)
unfolding handle_close
handle_close-Watched c = record {
  told = refl;
  kept = refl;
  listens = λ m l live. absurd (live refl);
}

read_outcome-Watched : (c : TcpConnection) (n : Option ℕ) → Watched c (read_outcome c n)
unfolding read_outcome
read_outcome-Watched c none = record { told = refl; kept = refl; listens = λ m l. l }
read_outcome-Watched c (some n) =
    let closed = handle_close-Watched c in
    record {
      told = ground (arith, closed.told);
      kept = ground (arith, closed.kept);
      listens = λ m l live. ground (arith, closed.listens m l, l);
    }

handle_read-Watched : (c : TcpConnection) (r : ReadResult) → Watched c (handle_read c r)
unfolding handle_read
handle_read-Watched c r =
    let (n, errno, filled) = read_fd c.input_buffer r in
    let w = read_outcome-Watched (record c { input_buffer = filled }) n in
    record { told = w.told; kept = w.kept; listens = w.listens }

handle_write-Watched : (c : TcpConnection) (r : WriteResult) → Watched c (handle_write c r)
unfolding handle_write drained
handle_write-Watched c r = record {
  told = ground arith;
  kept = ground arith;
  listens = λ m l live. ground (arith, (events_lem c.events m).3, l);
}

-- What a connection does between its opening and its destruction.
abbrev pub Later : Op → Type 0
Later establish = ⊥
Later destroy = ⊥
Later _ = Unit

pub step-Watched : (c : TcpConnection) (op : Op) → Later op → Watched c (step c op)
step-Watched c establish l = absurd l
step-Watched c (deliver chunk r) l = send_in_loop-Watched c chunk r
step-Watched c (writable r) l = handle_write-Watched c r
step-Watched c (readable r) l = handle_read-Watched c r
step-Watched c close l = handle_close-Watched c
step-Watched c (begin_shutdown b) l = shutdown-Watched b c
step-Watched c finish_shutdown l = shutdown_in_loop-Watched c
step-Watched c destroy l = absurd l

-- A closed connection asks for nothing.
abbrev pub Shut : TcpConnection → Type 0
Shut c = c.state ≡ k_disconnected → c.events ≡ 0

read_outcome-Shut : (c : TcpConnection) (n : Option ℕ) → Shut c → Shut (read_outcome c n).0
unfolding read_outcome handle_close
read_outcome-Shut c none q d = q d
read_outcome-Shut c (some n) q d = ground (arith, q)

pub step-Shut :
    (c : TcpConnection) (op : Op) → Inv c → Allowed c op → Later op → Shut c → Shut (step c op).0
unfolding send_in_loop handle_write handle_close shutdown shutdown_in_loop handle_read is_writing
step-Shut c establish v a l q d = absurd l
step-Shut c (deliver chunk r) v a l q d =
    let same = (send_in_loop-Streams c chunk r v a.0 a.1).same_state in
    let closed : c.state ≡ k_disconnected = sym same ∙ d in ground (arith, q closed)
step-Shut c (writable r) v a l q d =
    let same = (handle_write-Streams c r v).same_state in
    let closed : c.state ≡ k_disconnected = sym same ∙ d in
    ground (arith, q closed, v.closed closed)
step-Shut c (readable r) v a l q d =
    let (n, errno, filled) = read_fd c.input_buffer r in
    read_outcome-Shut (record c { input_buffer = filled }) n q d
step-Shut c close v a l q d = refl
step-Shut c (begin_shutdown b) v a l q d = ground (arith, q)
step-Shut c finish_shutdown v a l q d = q d
step-Shut c destroy v a l q d = absurd l

-- A connection that was just opened.
pub record Opened (out : Result) : Type 0 where
  pub inv : Inv out.0
  pub connected : out.0.state ≡ k_connected
  pub told : out.1 ≡ update_channel out.0.events ∷ run_connection_callback ∷ []
  pub listens : Listens out.0

pub open-Opened : (b d : Bool) → Opened (connect_established (new_connection b d))
unfolding new_connection connect_established
open-Opened b d =
    let c = new_connection b d in
    let v = new_connection-Inv b d in
    record {
      inv = (connect_established-Quiet c v refl).inv;
      connected = refl;
      told = refl;
      listens = λ live. (events_lem c.events v.mask).0.1;
    }

-- The destruction empties the events, where the connection was open, and then removes the channel.
pub connect_destroyed_lem :
    (c : TcpConnection)
    → ((connect_destroyed c).1 ≡ update_channel 0 ∷ run_connection_callback ∷ remove_channel ∷ [])
      ⊎ ((connect_destroyed c).1 ≡ remove_channel ∷ [])
unfolding connect_destroyed
connect_destroyed_lem c = elim (Bool-cases (is_state c.state k_connected)) [
  | inl y ↦ inl (rw y refl)
  | inr n ↦ inr (rw n refl)
]
