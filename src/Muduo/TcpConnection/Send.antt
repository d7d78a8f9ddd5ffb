-- ===== src/Muduo/TcpConnection/Send.antt =====
-- `send` and `sendInLoop`.
use alexproject.Common.{
  ℕ, ◌+◌, ◌≤◌, ◌<◌, ◌^◌, ◌≡◌, ◌≢◌, inl, inr, refl, Bool, true, false, not, ◌&&◌, ◌||◌, List, [],
  ◌∷◌, ◌++◌, arith, length, take, drop, append_assoc, append-nil, ap, sym, ◌∙◌, Bool-cases, ◌==◌,
  ltb, if◌then◌else◌, take-append-drop, length-drop,
}
use alexproject.Muduo.Buffer.{readable_bytes}
use alexproject.Muduo.Buffer.Invariant.{append-contents}
use alexproject.Muduo.Channel.{is_writing}
use alexproject.Muduo.TcpConnection.{
  TcpConnection, State, k_disconnected, k_connected, is_state, Result, WriteResult, ewouldblock,
  epipe, econnreset, Effect, wrote, queue_write_complete, queue_send, log_error, buffer_rest,
  write_now, send_in_loop, send,
}
use alexproject.Muduo.TcpConnection.Invariant.{
  Inv, pending, written, with_writing_lem, append-ne-nil,
}

-- There is room in the address space for the buffer and the new bytes.
abbrev pub Fits : TcpConnection → List ℕ → Type 0
Fits c chunk = length c.output_buffer.bytes + length chunk < 2 ^ 63

-- The bytes that came in are, in order, those that the kernel took and those that wait.
pub record Streams (c : TcpConnection) (chunk : List ℕ) (out : Result) : Type 0 where
  pub inv : Inv out.0
  pub same_state : out.0.state ≡ c.state
  pub stream : written out.1 ++ pending out.0 ≡ pending c ++ chunk

pub length-zero : {A : Type 0} (xs : List A) → (length xs == 0) ≡ true → xs ≡ []
length-zero [] h = refl
length-zero (x ∷ xs) h = ground arith

length-pos : {A : Type 0} (xs : List A) → (length xs == 0) ≡ false → xs ≢ []
length-pos [] h e = ground arith
length-pos (x ∷ xs) h e = cc

buffer_rest-Streams :
    (c : TcpConnection) (rest : List ℕ)
    → Inv c
    → c.state ≢ k_disconnected
    → Fits c rest
    → Streams c rest (buffer_rest c rest)
unfolding buffer_rest
buffer_rest-Streams c rest v live fits = elim (Bool-cases (length rest == 0)) [
  | inl none_left ↦
      rw none_left (record {
        inv = v;
        same_state = refl;
        stream = rw (length-zero rest none_left, append-nil);
      })
  | inr some_left ↦
      let a = append-contents c.output_buffer rest v.output_valid fits in
      let filled : pending c ++ rest ≢ [] =
        append-ne-nil (pending c) rest (length-pos rest some_left) in
      elim (Bool-cases (is_writing c.events)) [
        | inl w ↦
            rw (some_left, w)
              (record {
                inv = record {
                  output_valid = a.0;
                  input_valid = v.input_valid;
                  mask = v.mask;
                  writing = λ _ e. filled (sym a.1 ∙ e);
                  idle = λ q. cc;
                  closed = λ e. absurd (live e);
                };
                same_state = refl;
                stream = ground (arith, a.1);
              })
        | inr q ↦
            rw (some_left, q)
              (record {
                inv = record {
                  output_valid = a.0;
                  input_valid = v.input_valid;
                  mask = (with_writing_lem c.events v.mask).0;
                  writing = λ _ e. filled (sym a.1 ∙ e);
                  idle = λ q'. cc ((with_writing_lem c.events v.mask).1);
                  closed = λ e. absurd (live e);
                };
                same_state = refl;
                stream = ground (arith, a.1);
              })
      ]
]

pub is_state-ne : (s : State) → is_state s k_disconnected ≡ false → s ≢ k_disconnected
is_state-ne s h e = ground arith

-- The direct write found the connection reset or the peer gone.
abbrev pub fails : WriteResult → Bool
fails r =
    not (ltb 0 r.count)
    && (not (r.errno == ewouldblock) && (r.errno == epipe || r.errno == econnreset))

-- The bytes of a call of `sendInLoop` that it does not give up: none on a closed connection, and none where the direct
-- write, which is made when nothing waits, fails for good.
abbrev pub accepted : TcpConnection → List ℕ → WriteResult → List ℕ
accepted c chunk r =
    if is_state c.state k_disconnected
      || (not (is_writing c.events) && readable_bytes c.output_buffer == 0 && fails r)
    then []
    else chunk

-- A step that changes nothing and writes nothing.
pub unchanged-Streams :
    (c : TcpConnection) (es : List Effect) → Inv c → written es ≡ [] → Streams c [] (c, es)
unchanged-Streams c es v e = record { inv = v; same_state = refl; stream = rw (e, append-nil) }

logged :
    (c : TcpConnection) (chunk : List ℕ) (out : Result)
    → Streams c chunk out
    → Streams c chunk (out.0, log_error ∷ out.1)
logged c chunk out t = record { inv = t.inv; same_state = t.same_state; stream = t.stream }

taken-Streams :
    (c : TcpConnection) (chunk : List ℕ) (r : WriteResult) (b : Bool)
    → pending c ≡ []
    → Streams c (drop r.count chunk) (buffer_rest c (drop r.count chunk))
    → Streams c chunk (
      (buffer_rest c (drop r.count chunk)).0,
      wrote (take r.count chunk)
          ∷ ((if b then queue_write_complete ∷ [] else [])
              ++ (buffer_rest c (drop r.count chunk)).1),
    )
taken-Streams c chunk r b e t = record {
  inv = t.inv;
  same_state = t.same_state;
  stream =
      ap (λ l. (take r.count chunk ++ l) ++ pending (buffer_rest c (drop r.count chunk)).0)
        (quiet b)
      ∙ append_assoc (take r.count chunk) (written (buffer_rest c (drop r.count chunk)).1) _
      ∙ ap (λ l. take r.count chunk ++ l) (t.stream ∙ ap (λ l. l ++ drop r.count chunk) e)
      ∙ take-append-drop r.count chunk
      ∙ ap (λ l. l ++ chunk) (sym e);
}
  where
    quiet :
        (b : Bool)
        → written (
            (if b then queue_write_complete ∷ [] else []) ++ (buffer_rest c (drop r.count chunk)).1)
          ≡ written (buffer_rest c (drop r.count chunk)).1
    quiet true = refl
    quiet false = refl

write_now-Streams :
    (c : TcpConnection) (chunk : List ℕ) (r : WriteResult)
    → Inv c
    → c.state ≢ k_disconnected
    → pending c ≡ []
    → Fits c chunk
    → Streams c (if fails r then [] else chunk) (write_now c chunk r)
unfolding write_now
write_now-Streams c chunk r v live e fits = elim (Bool-cases (ltb 0 r.count)) [
  | inl some_taken ↦ rw some_taken (
      taken-Streams c chunk r (length (drop r.count chunk) == 0 && c.write_complete_callback) e (
        buffer_rest-Streams c (drop r.count chunk) v live
          (omega (arith, length-drop r.count chunk))))
  | inr none_taken ↦ elim (Bool-cases (r.errno == ewouldblock)) [
    | inl full ↦ rw (none_taken, full) (buffer_rest-Streams c chunk v live fits)
    | inr other ↦ elim (Bool-cases (r.errno == epipe || r.errno == econnreset)) [
      | inl gone ↦ rw (none_taken, other, gone) (unchanged-Streams c (log_error ∷ []) v refl)
      | inr odd ↦
          rw (none_taken, other, odd)
            (logged c chunk (buffer_rest c chunk) (buffer_rest-Streams c chunk v live fits))
    ]
  ]
]

-- On a connection that satisfies the invariant, `sendInLoop` loses, doubles and reorders nothing that it accepts: the bytes the kernel took during the call followed by
-- those that wait are the ones that waited before followed by the accepted ones. It keeps the invariant and the state.
pub send_in_loop-Streams :
    (c : TcpConnection) (chunk : List ℕ) (r : WriteResult)
    → Inv c
    → r.count ≤ length chunk
    → Fits c chunk
    → Streams c (accepted c chunk r) (send_in_loop c chunk r)
unfolding send_in_loop
send_in_loop-Streams c chunk r v h fits = elim (Bool-cases (is_state c.state k_disconnected)) [
  | inl gone ↦ rw gone (unchanged-Streams c (log_error ∷ []) v refl)
  | inr live ↦
      elim (Bool-cases (not (is_writing c.events) && readable_bytes c.output_buffer == 0)) [
        | inl direct ↦
            rw (live, direct)
              (write_now-Streams c chunk r v (is_state-ne c.state live)
                (v.idle (ground arith) (is_state-ne c.state live)) fits)
        | inr queue ↦
            rw (live, queue) (buffer_rest-Streams c chunk v (is_state-ne c.state live) fits)
      ]
]

-- `send` does what `sendInLoop` does on a connected connection when it is called in the loop's thread; from another thread
-- it hands the bytes over, and on any other connection it does nothing.
pub send-Streams :
    (in_loop_thread : Bool) (c : TcpConnection) (chunk : List ℕ) (r : WriteResult)
    → Inv c
    → r.count ≤ length chunk
    → Fits c chunk
    → Streams c
        (if in_loop_thread && is_state c.state k_connected then accepted c chunk r else [])
        (send in_loop_thread c chunk r)
unfolding send
send-Streams true c chunk r v h fits = elim (Bool-cases (is_state c.state k_connected)) [
  | inl open_now ↦ rw open_now (send_in_loop-Streams c chunk r v h fits)
  | inr other ↦ rw other (unchanged-Streams c [] v refl)
]
send-Streams false c chunk r v h fits = elim (Bool-cases (is_state c.state k_connected)) [
  | inl open_now ↦ rw open_now (unchanged-Streams c (queue_send chunk ∷ []) v refl)
  | inr other ↦ rw other (unchanged-Streams c [] v refl)
]
