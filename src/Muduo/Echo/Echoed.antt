-- ===== src/Muduo/Echo/Echoed.antt =====
-- What a client of the echo server gets.
use alexproject.Common.{
  ℕ, ◌≤◌, ◌≡◌, ◌≢◌, ◌↔◌, refl, ap, sym, ◌∙◌, Bool-cases, false, true, List, [], ◌∷◌, ◌++◌, ◌||◌,
  some, arith, ◌&&◌, if◌then◌else◌, ltb, inl, inr, length, append_assoc, append-nil,
}
use alexproject.Muduo.Buffer.{Buffer, got, read_fd}
use alexproject.Muduo.Buffer.Invariant.{IsValid, contents}
use alexproject.Muduo.Buffer.Retrieve.{retrieve_all_as_string-contents}
use alexproject.Muduo.Buffer.Fd.{InRoom, read_fd-Reads}
use alexproject.Muduo.Channel.{is_writing}
use alexproject.Muduo.TcpConnection.{
  TcpConnection, k_connected, k_disconnecting, WriteResult, Effect, run_message_callback, is_state,
  send, shutdown, handle_write,
}
use alexproject.Muduo.TcpConnection.Invariant.{
  Inv, pending, written, written-append, shuts, shuts-append,
}
use alexproject.Muduo.TcpConnection.Send.{Streams, Fits, accepted, fails, send-Streams}
use alexproject.Muduo.TcpConnection.Write.{handle_write-Streams, handle_write-shuts, send-shuts}
use alexproject.Muduo.TcpConnection.Life.{
  input-Inv, shutdown_lem, shutdown-Quiet, handle_read-message,
}
use alexproject.Muduo.Echo.{echo, echo_message, echo_read}

-- The first message is on its way back, and the write side is shut down exactly when all of it is gone.
pub record Echoed (msg : List ℕ) (es : List Effect) (conn : TcpConnection) : Type 0 where
  pub inv : Inv conn
  pub closing : conn.state ≡ k_disconnecting
  pub stream : written es ++ pending conn ≡ msg
  pub shut : (shuts es ≡ true) ↔ (pending conn ≡ [])

-- A message that arrives is taken out of the input buffer, with what was there before, and echoed.
pub echo_read-message :
    (conn : TcpConnection) (chunk : List ℕ) (w : WriteResult)
    → Inv conn
    → InRoom conn.input_buffer (got chunk)
    → chunk ≢ []
    → (rest : Buffer) × IsValid rest
      × (contents rest ≡ [])
      × (echo_read conn (got chunk) w ≡ (
          let out = echo conn w (contents conn.input_buffer ++ chunk, rest) in
          some (out.0, run_message_callback ∷ out.1)))
unfolding echo_read echo_message
echo_read-message conn chunk w v room ne =
    let r = read_fd-Reads conn.input_buffer (got chunk) v.input_valid room in
    let (rest, e, valid, empty) =
      retrieve_all_as_string-contents (read_fd conn.input_buffer (got chunk)).2 r.2 in
    (rest, valid, empty, rw (handle_read-message conn chunk v room ne, e, r.3) refl)

-- A write that does not fail for good sends, on an open connection, all that it is given.
sent-Streams :
    (conn : TcpConnection) (msg : List ℕ) (w : WriteResult)
    → Inv conn
    → conn.state ≡ k_connected
    → w.count ≤ length msg
    → Fits conn msg
    → fails w ≡ false
    → Streams conn msg (send true conn msg w)
sent-Streams conn msg w v is_open le fits good =
    let all : (if true && is_state conn.state k_connected then accepted conn msg w else []) ≡ msg =
      ground arith in
    let s = send-Streams true conn msg w v le fits in
    record {
      inv = s.inv;
      same_state = s.same_state;
      stream = s.stream ∙ ap (λ l. pending conn ++ l) all;
    }

-- The first message.
pub echo-Echoed :
    (conn : TcpConnection) (w : WriteResult) (msg : List ℕ) (rest : Buffer)
    → Inv conn
    → conn.state ≡ k_connected
    → pending conn ≡ []
    → IsValid rest
    → w.count ≤ length msg
    → Fits conn msg
    → fails w ≡ false
    → Echoed msg (echo conn w (msg, rest)).1 (echo conn w (msg, rest)).0
unfolding echo
echo-Echoed conn w msg rest v is_open none_waits valid le fits good =
    let start = record conn { input_buffer = rest } in
    let sent = send true start msg w in
    let s = sent-Streams start msg w (input-Inv conn rest v valid) is_open le fits good in
    let closes = shutdown_lem sent.0 s.inv (s.same_state ∙ is_open) in
    let q = shutdown-Quiet true sent.0 s.inv in
    let only_last =
      shuts-append sent.1 (shutdown true sent.0).1
      ∙ ap (λ b. b || shuts (shutdown true sent.0).1) (send-shuts true start msg w) in
    record {
      inv = q.inv;
      closing = closes.0;
      stream =
          ap (λ l. l ++ pending (shutdown true sent.0).0)
            (written-append sent.1 (shutdown true sent.0).1
              ∙ ap (λ l. written sent.1 ++ l) q.silent
              ∙ append-nil (written sent.1))
          ∙ ap (λ l. written sent.1 ++ l) q.same_pending
          ∙ s.stream
          ∙ ap (λ l. l ++ msg) none_waits;
      shut = (
        λ h. q.same_pending ∙ closes.1.0 (sym only_last ∙ h),
        λ h. only_last ∙ closes.1.1 (sym q.same_pending ∙ h),
      );
    }

-- Once `shutdown` was called, `onMessage` does nothing more.
pub echo-closing :
    (conn : TcpConnection) (w : WriteResult) (msg : List ℕ) (rest : Buffer)
    → conn.state ≡ k_disconnecting
    → echo conn w (msg, rest) ≡ (record conn { input_buffer = rest }, [])
unfolding echo send shutdown
echo-closing conn w msg rest e = rw e refl

append-right-nil : (xs ys : List ℕ) → xs ++ ys ≡ [] → ys ≡ []
append-right-nil [] ys e = e
append-right-nil (x ∷ xs) ys e = cc

untaken :
    (conn : TcpConnection) (w : WriteResult)
    → ltb 0 w.count ≡ false
    → (handle_write conn w).0 ≡ conn
unfolding handle_write
untaken conn w e = rw e ground arith

-- `handleWrite` on a connection that waits for its shutdown.
pub drains-Echoed :
    (msg : List ℕ) (es : List Effect) (conn : TcpConnection) (w : WriteResult)
    → Echoed msg es conn
    → Echoed msg (es ++ (handle_write conn w).1) (handle_write conn w).0
drains-Echoed msg es conn w v =
    let (after, fs) = handle_write conn w in
    let t = handle_write-Streams conn w v.inv in
    let closes = handle_write-shuts conn w v.inv in
    record {
      inv = t.inv;
      closing = t.same_state ∙ v.closing;
      stream =
          ap (λ l. l ++ pending after) (written-append es fs)
          ∙ append_assoc (written es) (written fs) (pending after)
          ∙ ap (λ l. written es ++ l) (t.stream ∙ append-nil (pending conn))
          ∙ v.stream;
      shut = (
        λ h. elim (Bool-cases (shuts es)) [
          | inl y ↦
              append-right-nil (written fs) (pending after)
                (t.stream ∙ append-nil (pending conn) ∙ v.shut.0 y)
          | inr n ↦ (closes.0 (ap (λ b. b || shuts fs) (sym n) ∙ sym (shuts-append es fs) ∙ h)).2
        ],
        λ h. shuts-append es fs ∙ elim (Bool-cases (is_writing conn.events)) [
          | inr quiet ↦
              ap (λ b. b || shuts fs) (v.shut.1 (v.inv.idle quiet (λ d. ground (arith, v.closing))))
          | inl busy ↦ elim (Bool-cases (ltb 0 w.count)) [
            | inl some_taken ↦ ground (arith, closes.1 (busy, ground arith, h, v.closing))
            | inr nothing ↦
                absurd (v.inv.writing busy (ap pending (sym (untaken conn w nothing)) ∙ h))
          ]
        ],
      );
    }
