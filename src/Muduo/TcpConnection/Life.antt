-- ===== src/Muduo/TcpConnection/Life.antt =====
-- Opening, reading and closing a connection.
use alexproject.Common.{
  ℕ, ◌≡◌, ◌≢◌, ◌↔◌, inl, inr, refl, Bool, true, false, List, [], ◌∷◌, arith, length, ap, sym, ◌∙◌,
  Bool-cases, ltb, if◌then◌else◌, none, some, Option,
}
use alexproject.Muduo.Buffer.{Buffer, ReadResult, got, read_error, read_fd}
use alexproject.Muduo.Buffer.Invariant.{contents}
use alexproject.Muduo.Buffer.Invariant
use alexproject.Muduo.Buffer.Fd.{InRoom, read_fd-Reads}
use alexproject.Muduo.Channel.{is_writing}
use alexproject.Muduo.TcpConnection.{
  TcpConnection, k_disconnected, k_connecting, k_connected, k_disconnecting, is_state, Result,
  run_message_callback, shutdown, shutdown_in_loop, connect_established, connect_destroyed,
  handle_close, handle_read, read_outcome,
}
use alexproject.Muduo.TcpConnection.Invariant.{Inv, pending, written, shuts, with_reading_lem}

-- A call that sends nothing: the invariant is kept, nothing is written and nothing that waits is lost.
pub record Quiet (c : TcpConnection) (out : Result) : Type 0 where
  pub inv : Inv out.0
  pub silent : written out.1 ≡ []
  pub same_pending : pending out.0 ≡ pending c

closed-Inv : (c : TcpConnection) → Inv c → Inv (record c { state = k_disconnected; events = 0 })
unfolding is_writing
closed-Inv c v = record {
  output_valid = v.output_valid;
  input_valid = v.input_valid;
  mask = inl refl;
  writing = λ w. ground arith;
  idle = λ _ live. absurd (live refl);
  closed = λ _. refl;
}

pub handle_close-Quiet : (c : TcpConnection) → Inv c → Quiet c (handle_close c)
unfolding handle_close
handle_close-Quiet c v = record { inv = closed-Inv c v; silent = refl; same_pending = refl }

-- Destroying a connection, in whichever state, keeps the invariant and sends nothing.
pub connect_destroyed-Quiet : (c : TcpConnection) → Inv c → Quiet c (connect_destroyed c)
unfolding connect_destroyed
connect_destroyed-Quiet c v = elim (Bool-cases (is_state c.state k_connected)) [
  | inl y ↦ rw y (record { inv = closed-Inv c v; silent = refl; same_pending = refl })
  | inr n ↦ rw n (record { inv = v; silent = refl; same_pending = refl })
]

pub connect_established-Quiet :
    (c : TcpConnection) → Inv c → c.state ≡ k_connecting → Quiet c (connect_established c)
unfolding connect_established
connect_established-Quiet c v e =
    let r = with_reading_lem c.events v.mask in
    record {
      inv = record {
        output_valid = v.output_valid;
        input_valid = v.input_valid;
        mask = r.0;
        writing = λ w. v.writing (sym r.1 ∙ w);
        idle = λ q _. v.idle (sym r.1 ∙ q) (λ d. ground arith);
        closed = λ d. cc;
      };
      silent = refl;
      same_pending = refl;
    }

pub shutdown_in_loop-Quiet : (c : TcpConnection) → Inv c → Quiet c (shutdown_in_loop c)
unfolding shutdown_in_loop
shutdown_in_loop-Quiet c v = record { inv = v; silent = ground arith; same_pending = refl }

disconnecting-Inv :
    (c : TcpConnection) → Inv c → c.state ≡ k_connected → Inv (record c { state = k_disconnecting })
disconnecting-Inv c v e = record {
  output_valid = v.output_valid;
  input_valid = v.input_valid;
  mask = v.mask;
  writing = v.writing;
  idle = λ q _. v.idle q (λ d. ground arith);
  closed = λ d. cc;
}

pub shutdown-Quiet :
    (in_loop_thread : Bool) (c : TcpConnection) → Inv c → Quiet c (shutdown in_loop_thread c)
unfolding shutdown
shutdown-Quiet true c v = elim (Bool-cases (is_state c.state k_connected)) [
  | inl y ↦
      let q =
        shutdown_in_loop-Quiet (record c { state = k_disconnecting })
          (disconnecting-Inv c v (ground arith)) in
      rw y (record { inv = q.inv; silent = q.silent; same_pending = q.same_pending })
  | inr n ↦ rw n (record { inv = v; silent = refl; same_pending = refl })
]
shutdown-Quiet false c v = elim (Bool-cases (is_state c.state k_connected)) [
  | inl y ↦
      rw y
        (record { inv = disconnecting-Inv c v (ground arith); silent = refl; same_pending = refl })
  | inr n ↦ rw n (record { inv = v; silent = refl; same_pending = refl })
]

read_outcome-Quiet : (c : TcpConnection) (n : Option ℕ) → Inv c → Quiet c (read_outcome c n)
unfolding read_outcome
read_outcome-Quiet c none v = record { inv = v; silent = refl; same_pending = refl }
read_outcome-Quiet c (some n) v = elim (Bool-cases (ltb 0 n)) [
  | inl y ↦ rw y (record { inv = v; silent = refl; same_pending = refl })
  | inr z ↦ rw z (handle_close-Quiet c v)
]

pub input-Inv :
    (c : TcpConnection) (b : Buffer)
    → Inv c
    → Invariant.IsValid b
    → Inv (record c { input_buffer = b })
input-Inv c b v w = record {
  output_valid = v.output_valid;
  input_valid = w;
  mask = v.mask;
  writing = v.writing;
  idle = v.idle;
  closed = v.closed;
}

read-IsValid :
    (b : Buffer) (r : ReadResult)
    → Invariant.IsValid b
    → InRoom b r
    → Invariant.IsValid (read_fd b r).2
read-IsValid b (read_error e) v h = rw (read_fd-Reads b (read_error e) v h) v
read-IsValid b (got chunk) v h = (read_fd-Reads b (got chunk) v h).2

pub handle_read-Quiet :
    (c : TcpConnection) (r : ReadResult)
    → Inv c
    → InRoom c.input_buffer r
    → Quiet c (handle_read c r)
unfolding handle_read
handle_read-Quiet c r v h =
    let q =
      read_outcome-Quiet (record c { input_buffer = (read_fd c.input_buffer r).2 })
        (read_fd c.input_buffer r).0
        (input-Inv c _ v (read-IsValid c.input_buffer r v.input_valid h)) in
    record { inv = q.inv; silent = q.silent; same_pending = q.same_pending }

read_some :
    (c : TcpConnection) (n : Option ℕ) (chunk : List ℕ)
    → n ≡ some (length chunk)
    → chunk ≢ []
    → read_outcome c n ≡ (c, run_message_callback ∷ [])
unfolding read_outcome
read_some c n [] e ne = absurd (ne refl)
read_some c n (x ∷ xs) e ne =
    let positive : ltb 0 (length (x ∷ xs)) ≡ true = ground arith in
    rw e (ap (λ b. if b then (c, run_message_callback ∷ []) else handle_close c) positive)

read_end :
    (c : TcpConnection) (n : Option ℕ) (chunk : List ℕ)
    → n ≡ some (length chunk)
    → chunk ≡ []
    → read_outcome c n ≡ handle_close c
unfolding read_outcome
read_end c n chunk e empty = rw (e, empty) refl

-- Bytes that came go to the input buffer, and the message callback runs.
pub handle_read-message :
    (c : TcpConnection) (chunk : List ℕ)
    → Inv c
    → InRoom c.input_buffer (got chunk)
    → chunk ≢ []
    → handle_read c (got chunk) ≡ (
      record c { input_buffer = (read_fd c.input_buffer (got chunk)).2 },
      run_message_callback ∷ [],
    )
unfolding handle_read
handle_read-message c chunk v h ne =
    read_some (record c { input_buffer = (read_fd c.input_buffer (got chunk)).2 }) _ chunk
      (read_fd-Reads c.input_buffer (got chunk) v.input_valid h).0 ne

pub shutdown_lem :
    (c : TcpConnection)
    → Inv c
    → c.state ≡ k_connected
    → ((shutdown true c).0.state ≡ k_disconnecting)
      × ((shuts (shutdown true c).1 ≡ true) ↔ (pending c ≡ []))
unfolding shutdown shutdown_in_loop
shutdown_lem c v e = elim (Bool-cases (is_writing c.events)) [
  | inl w ↦
      rw (e, w) (refl, (λ h. absurd (ground arith), λ none_left. absurd (v.writing w none_left)))
  | inr q ↦ rw (e, q) (refl, (λ _. v.idle q (λ d. ground arith), λ _. refl))
]
