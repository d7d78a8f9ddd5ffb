-- ===== src/Muduo/TcpConnection/Write.antt =====
-- `handleWrite`: the output buffer drains, and a shutdown that waited for it happens.
use alexproject.Common.{
  ℕ, Bool, false, ◌<◌, ◌≡◌, ◌≢◌, ◌↔◌, inl, inr, refl, true, List, [], ◌∷◌, ◌++◌, arith, take,
  append-nil, ap, sym, ◌∙◌, Bool-cases, ◌==◌, ltb, take-append-drop,
}
use alexproject.Muduo.Buffer.{readable_bytes, retrieve}
use alexproject.Muduo.Buffer.Retrieve.{retrieve-contents, write_fd-contents}
use alexproject.Muduo.Channel.{is_writing}
use alexproject.Muduo.TcpConnection.{
  TcpConnection, k_disconnecting, WriteResult, Effect, wrote, log_error, offered, drained,
  handle_write, send, send_in_loop, write_now, buffer_rest,
}
use alexproject.Muduo.TcpConnection.Invariant.{
  Inv, pending, written, shuts, empty_iff, without_writing_lem,
}
use alexproject.Muduo.TcpConnection.Send.{Streams, unchanged-Streams}

-- The connection once `write` has taken its bytes.
abbrev pub left : TcpConnection → WriteResult → TcpConnection
left c r = record c { output_buffer = retrieve c.output_buffer r.count }

offered-contents : (c : TcpConnection) → Inv c → offered c.output_buffer ≡ pending c
unfolding offered
offered-contents c v = rw (write_fd-contents c.output_buffer v.output_valid, offered)

left-stream :
    (c : TcpConnection) (r : WriteResult)
    → Inv c
    → take r.count (offered c.output_buffer) ++ pending (left c r) ≡ pending c
left-stream c r v =
    rw (offered-contents c v, (retrieve-contents c.output_buffer r.count v.output_valid).1)
      (take-append-drop r.count (pending c))

drained-written : (c : TcpConnection) → written (drained c).1 ≡ []
unfolding drained
drained-written c = ground arith

taken-stream :
    (c : TcpConnection) (r : WriteResult) (es : List Effect)
    → Inv c
    → written es ≡ []
    → (take r.count (offered c.output_buffer) ++ written es) ++ pending (left c r) ≡ pending c ++ []
taken-stream c r es v e =
    ap (λ l. (take r.count (offered c.output_buffer) ++ l) ++ pending (left c r)) e
    ∙ ap (λ l. l ++ pending (left c r)) (append-nil (take r.count (offered c.output_buffer)))
    ∙ left-stream c r v
    ∙ sym (append-nil (pending c))

drained-Streams :
    (c : TcpConnection) (r : WriteResult)
    → Inv c
    → pending (left c r) ≡ []
    → Streams c [] (
      (drained (left c r)).0,
      wrote (take r.count (offered c.output_buffer)) ∷ (drained (left c r)).1,
    )
unfolding drained
drained-Streams c r v e =
    let quiet = without_writing_lem c.events v.mask in
    record {
      inv = record {
        output_valid = (retrieve-contents c.output_buffer r.count v.output_valid).0;
        input_valid = v.input_valid;
        mask = quiet.0;
        writing = λ w. cc (quiet.1);
        idle = λ _ _. e;
        closed = λ _. quiet.1;
      };
      same_state = refl;
      stream = taken-stream c r (drained (left c r)).1 v (drained-written (left c r));
    }

left-Streams :
    (c : TcpConnection) (r : WriteResult)
    → Inv c
    → is_writing c.events ≡ true
    → pending (left c r) ≢ []
    → Streams c [] (left c r, wrote (take r.count (offered c.output_buffer)) ∷ [])
left-Streams c r v w ne = record {
  inv = record {
    output_valid = (retrieve-contents c.output_buffer r.count v.output_valid).0;
    input_valid = v.input_valid;
    mask = v.mask;
    writing = λ _. ne;
    idle = λ q. cc;
    closed = v.closed;
  };
  same_state = refl;
  stream = taken-stream c r [] v refl;
}

-- On a connection that satisfies the invariant, `handleWrite` moves bytes from the front of the output buffer to the
-- kernel and loses none: what the kernel took followed by what still waits is what waited before. It keeps the
-- invariant and the state.
pub handle_write-Streams :
    (c : TcpConnection) (r : WriteResult) → Inv c → Streams c [] (handle_write c r)
unfolding handle_write
handle_write-Streams c r v = elim (Bool-cases (is_writing c.events)) [
  | inr quiet ↦ rw quiet (unchanged-Streams c (log_error ∷ []) v refl)
  | inl w ↦ elim (Bool-cases (ltb 0 r.count)) [
    | inr nothing ↦ rw (w, nothing) (unchanged-Streams c (log_error ∷ []) v refl)
    | inl some_taken ↦
        let empty =
          empty_iff (left c r).output_buffer
            (retrieve-contents c.output_buffer r.count v.output_valid).0 in
        elim (Bool-cases (readable_bytes (left c r).output_buffer == 0)) [
          | inl all_gone ↦
              rw (w, some_taken, all_gone) (drained-Streams c r v (empty.0 (ground arith)))
          | inr more ↦
              rw (w, some_taken, more) (left-Streams c r v w (λ e. ground (arith, empty.1 e)))
        ]
  ]
]

-- `handleWrite` shuts the write side down exactly when it was watching for output, the kernel took something, nothing waits any more, and `shutdown`
-- was called before.
pub handle_write-shuts :
    (c : TcpConnection) (r : WriteResult)
    → Inv c
    → (shuts (handle_write c r).1 ≡ true) ↔ (
        (is_writing c.events ≡ true)
        × (0 < r.count)
        × (pending (handle_write c r).0 ≡ [])
        × (c.state ≡ k_disconnecting))
unfolding handle_write
handle_write-shuts c r v =
    let empty =
      empty_iff (left c r).output_buffer
        (retrieve-contents c.output_buffer r.count v.output_valid).0 in
    let quiet = without_writing_lem c.events v.mask in
    (λ h. ground (arith, quiet.1), λ h. ground (arith, quiet.1))

-- A send leaves the write side open.
pub send-shuts :
    (in_loop_thread : Bool) (c : TcpConnection) (chunk : List ℕ) (r : WriteResult)
    → shuts (send in_loop_thread c chunk r).1 ≡ false
unfolding send send_in_loop write_now buffer_rest
send-shuts b c chunk r = ground arith
