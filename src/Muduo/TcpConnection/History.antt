-- ===== src/Muduo/TcpConnection/History.antt =====
-- The whole life of a connection: any sequence of calls, sends, writable and readable events.
use alexproject.Common.{
  ℕ, ◌≤◌, ◌≡◌, Bool, List, [], inl, arith, ◌∷◌, ◌++◌, refl, ap, sym, ◌∙◌, append_assoc, append-nil,
  length,
}
use alexproject.Muduo.Buffer.{ReadResult, k_initial_size}
use alexproject.Muduo.Buffer.Invariant.{new_buffer-IsValid}
use alexproject.Muduo.Buffer.Fd.{InRoom}
use alexproject.Muduo.Channel.{is_writing}
use alexproject.Muduo.TcpConnection.{
  TcpConnection, new_connection, k_connecting, Result, WriteResult, send_in_loop, shutdown,
  shutdown_in_loop, connect_established, connect_destroyed, handle_close, handle_read, handle_write,
}
use alexproject.Muduo.TcpConnection.Invariant.{Inv, pending, written, written-append}
use alexproject.Muduo.TcpConnection.Send.{Fits, accepted, send_in_loop-Streams}
use alexproject.Muduo.TcpConnection.Write.{handle_write-Streams}
use alexproject.Muduo.TcpConnection.Life.{
  Quiet, handle_close-Quiet, connect_destroyed-Quiet, connect_established-Quiet, shutdown-Quiet,
  shutdown_in_loop-Quiet, handle_read-Quiet,
}

-- What the loop's thread does with a connection. A `send` or a `shutdown` of another thread is here where
-- the loop runs the functor it queued.
pub data Op : Type 0 where
  establish : Op
  deliver : List ℕ → WriteResult → Op
  writable : WriteResult → Op
  readable : ReadResult → Op
  close : Op
  begin_shutdown : Bool → Op
  finish_shutdown : Op
  destroy : Op

abbrev pub step : TcpConnection → Op → Result
step c establish = connect_established c
step c (deliver chunk r) = send_in_loop c chunk r
step c (writable r) = handle_write c r
step c (readable r) = handle_read c r
step c close = handle_close c
step c (begin_shutdown in_loop_thread) = shutdown in_loop_thread c
step c finish_shutdown = shutdown_in_loop c
step c destroy = connect_destroyed c

abbrev pub run : TcpConnection → List Op → Result
run c [] = (c, [])
run c (op ∷ ops) = let (after, es) = step c op in let (last, fs) = run after ops in (last, es ++ fs)

-- The bytes that the sends of a sequence accept, in order.
abbrev pub all_accepted : TcpConnection → List Op → List ℕ
all_accepted c [] = []
all_accepted c (deliver chunk r ∷ ops) =
    accepted c chunk r ++ all_accepted (step c (deliver chunk r)).0 ops
all_accepted c (op ∷ ops) = all_accepted (step c op).0 ops

-- The kernel takes no more than it is given, `readv` fills no more than its two areas, the buffers stay within half the
-- address space, and a connection is established once.
abbrev pub Allowed : TcpConnection → Op → Type 0
Allowed c establish = c.state ≡ k_connecting
Allowed c (deliver chunk r) = (r.count ≤ length chunk) × Fits c chunk
Allowed c (readable r) = InRoom c.input_buffer r
Allowed c _ = Unit

abbrev pub Legal : TcpConnection → List Op → Type 0
Legal c [] = Unit
Legal c (op ∷ ops) = Allowed c op × Legal (step c op).0 ops

pub record Conserves (c : TcpConnection) (chunk : List ℕ) (out : Result) : Type 0 where
  pub inv : Inv out.0
  pub stream : written out.1 ++ pending out.0 ≡ pending c ++ chunk

Quiet-Conserves : (c : TcpConnection) (out : Result) → Quiet c out → Conserves c [] out
Quiet-Conserves c out q = record {
  inv = q.inv;
  stream = ap (λ l. l ++ pending out.0) q.silent ∙ q.same_pending ∙ sym (append-nil (pending c));
}

abbrev pub step_accepted : TcpConnection → Op → List ℕ
step_accepted c (deliver chunk r) = accepted c chunk r
step_accepted c _ = []

pub step-Conserves :
    (c : TcpConnection) (op : Op)
    → Inv c
    → Allowed c op
    → Conserves c (step_accepted c op) (step c op)
step-Conserves c establish v a =
    Quiet-Conserves c (connect_established c) (connect_established-Quiet c v a)
step-Conserves c (deliver chunk r) v a =
    let s = send_in_loop-Streams c chunk r v a.0 a.1 in record { inv = s.inv; stream = s.stream }
step-Conserves c (writable r) v a =
    let s = handle_write-Streams c r v in record { inv = s.inv; stream = s.stream }
step-Conserves c (readable r) v a = Quiet-Conserves c (handle_read c r) (handle_read-Quiet c r v a)
step-Conserves c close v a = Quiet-Conserves c (handle_close c) (handle_close-Quiet c v)
step-Conserves c (begin_shutdown b) v a = Quiet-Conserves c (shutdown b c) (shutdown-Quiet b c v)
step-Conserves c finish_shutdown v a =
    Quiet-Conserves c (shutdown_in_loop c) (shutdown_in_loop-Quiet c v)
step-Conserves c destroy v a = Quiet-Conserves c (connect_destroyed c) (connect_destroyed-Quiet c v)

all_accepted-cons :
    (c : TcpConnection) (op : Op) (ops : List Op)
    → all_accepted c (op ∷ ops) ≡ step_accepted c op ++ all_accepted (step c op).0 ops
all_accepted-cons c establish ops = refl
all_accepted-cons c (deliver chunk r) ops = refl
all_accepted-cons c (writable r) ops = refl
all_accepted-cons c (readable r) ops = refl
all_accepted-cons c close ops = refl
all_accepted-cons c (begin_shutdown b) ops = refl
all_accepted-cons c finish_shutdown ops = refl
all_accepted-cons c destroy ops = refl

-- After any legal sequence of calls on a connection that satisfies the invariant, the invariant holds, and the bytes that the kernel took over the whole sequence,
-- followed by those that still wait, are the bytes that waited at the start followed by those that the sends accepted, in the order of the sends.
pub run-Conserves :
    (c : TcpConnection) (ops : List Op)
    → Inv c
    → Legal c ops
    → Conserves c (all_accepted c ops) (run c ops)
run-Conserves c [] v l = record { inv = v; stream = sym (append-nil (pending c)) }
run-Conserves c (op ∷ ops) v l =
    let s = step-Conserves c op v l.0 in
    let rest = run-Conserves (step c op).0 ops s.inv l.1 in
    record {
      inv = rest.inv;
      stream =
          ap (λ b. b ++ pending (run (step c op).0 ops).0)
            (written-append (step c op).1 (run (step c op).0 ops).1)
          ∙ append_assoc (written (step c op).1) (written (run (step c op).0 ops).1) _
          ∙ ap (λ b. written (step c op).1 ++ b) rest.stream
          ∙ sym (append_assoc (written (step c op).1) (pending (step c op).0) _)
          ∙ ap (λ b. b ++ all_accepted (step c op).0 ops) s.stream
          ∙ append_assoc (pending c) (step_accepted c op) _
          ∙ ap (λ b. pending c ++ b) (sym (all_accepted-cons c op ops));
    }

pub new_connection-Inv : (b d : Bool) → Inv (new_connection b d)
unfolding new_connection is_writing
new_connection-Inv b d =
    let fresh = new_buffer-IsValid k_initial_size (ground arith) in
    record {
      output_valid = fresh.0;
      input_valid = fresh.0;
      mask = inl refl;
      writing = λ w. ground arith;
      idle = λ _ _. fresh.1;
      closed = λ _. refl;
    }

-- Over any legal sequence of calls on a new connection, the bytes that the kernel took, followed by those that
-- still wait, are those that the sends accepted, in the order of the sends: none is lost, doubled or moved.
pub new_connection-run :
    (write_complete high_water : Bool) (ops : List Op)
    → Legal (new_connection write_complete high_water) ops
    → written (run (new_connection write_complete high_water) ops).1
        ++ pending (run (new_connection write_complete high_water) ops).0
      ≡ all_accepted (new_connection write_complete high_water) ops
unfolding new_connection
new_connection-run b d ops l =
    (run-Conserves (new_connection b d) ops (new_connection-Inv b d) l).stream
    ∙ ap (λ p. p ++ all_accepted (new_connection b d) ops)
        (new_buffer-IsValid k_initial_size (ground arith)).1
