-- ===== src/Muduo/Echo/Run.antt =====
-- A client of the echo server from its first message on.
use alexproject.Common.{
  ℕ, ◌≤◌, ◌≡◌, ◌≢◌, refl, ap, sym, ◌∙◌, false, List, [], ◌∷◌, ◌++◌, none, some, arith, length,
  append_assoc, append-nil,
}
use alexproject.Muduo.Buffer.{got}
use alexproject.Muduo.Buffer.Invariant.{contents}
use alexproject.Muduo.Buffer.Fd.{InRoom}
use alexproject.Muduo.TcpConnection.{
  TcpConnection, k_connected, Result, WriteResult, Effect, run_message_callback, handle_write,
}
use alexproject.Muduo.TcpConnection.Invariant.{Inv, pending, written, written-append, shuts-append}
use alexproject.Muduo.TcpConnection.Send.{Fits, fails}
use alexproject.Muduo.TcpConnection.Life.{input-Inv}
use alexproject.Muduo.Echo.{echo, Event, arrives, drains, echo_event, echo_events}
use alexproject.Muduo.Echo.Echoed.{
  Echoed, echo_read-message, echo-Echoed, echo-closing, drains-Echoed,
}

-- What arrives is not empty, and `readv` fills no more than its two areas.
abbrev pub Expected : TcpConnection → Event → Type 0
Expected conn (arrives chunk w) = (chunk ≢ []) × InRoom conn.input_buffer (got chunk)
Expected conn (drains w) = Unit

abbrev pub ExpectedFrom : TcpConnection → List Event → Type 0
ExpectedFrom conn [] = Unit
ExpectedFrom conn (event ∷ events) =
    Expected conn event
    × elim (echo_event conn event) [ none ↦ Unit {0} | some out ↦ ExpectedFrom out.0 events ]

event-Echoed :
    (msg : List ℕ) (es : List Effect) (conn : TcpConnection) (event : Event)
    → Echoed msg es conn
    → Expected conn event
    → (out : Result) × (echo_event conn event ≡ some out) × Echoed msg (es ++ out.1) out.0
event-Echoed msg es conn (drains w) v h = (handle_write conn w, refl, drains-Echoed msg es conn w v)
event-Echoed msg es conn (arrives chunk w) v h =
    let (rest, valid, empty, e) = echo_read-message conn chunk w v.inv h.1 h.0 in
    let more = run_message_callback ∷ [] in
    (
      (record conn { input_buffer = rest }, more),
      e
          ∙ ap (λ (o : Result). some (o.0, run_message_callback ∷ o.1))
              (echo-closing conn w (contents conn.input_buffer ++ chunk) rest v.closing),
      record {
        inv = input-Inv conn rest v.inv valid;
        closing = v.closing;
        stream =
            ap (λ l. l ++ pending conn) (written-append es more ∙ append-nil (written es))
            ∙ v.stream;
        shut = ground (arith, shuts-append es more, v.shut);
      },
    )

events-Echoed :
    (msg : List ℕ) (es : List Effect) (conn : TcpConnection) (events : List Event)
    → Echoed msg es conn
    → ExpectedFrom conn events
    → (out : Result) × (echo_events conn events ≡ some out) × Echoed msg (es ++ out.1) out.0
events-Echoed msg es conn [] v h = ((conn, []), refl, rw (append-nil es) v)
events-Echoed msg es conn (event ∷ events) v h =
    let (out, e, w) = event-Echoed msg es conn event v h.0 in
    let (last, f, x) = events-Echoed msg (es ++ out.1) out.0 events w (rw e at h.1) in
    ((last.0, out.1 ++ last.1), rw (e, f) refl, rw (sym (append_assoc es out.1 last.1)) x)

-- On an open connection on which nothing waits, when the write of the first message does not fail for good and there is
-- room for it: whatever arrives later and however the output drains, `onMessage` does not throw, the bytes that the kernel took followed by those that wait
-- are the first message, and nothing of what arrives later; and the write side has been shut down exactly when none of it waits any more.
pub first_message-Echoed :
    (conn : TcpConnection) (msg : List ℕ) (w : WriteResult) (later : List Event)
    → Inv conn
    → conn.state ≡ k_connected
    → contents conn.input_buffer ≡ []
    → pending conn ≡ []
    → w.count ≤ length msg
    → Fits conn msg
    → fails w ≡ false
    → ExpectedFrom conn (arrives msg w ∷ later)
    → (out : Result) × (echo_events conn (arrives msg w ∷ later) ≡ some out)
      × Echoed msg out.1 out.0
first_message-Echoed conn msg w later v is_open nothing_read none_waits le fits good h =
    let (rest, valid, empty, e) = echo_read-message conn msg w v h.0.1 h.0.0 in
    let first = echo conn w (msg, rest) in
    let begun =
      e
      ∙ ap
          (λ l. some (
            (echo conn w (l ++ msg, rest)).0,
            run_message_callback ∷ (echo conn w (l ++ msg, rest)).1,
          ))
          nothing_read in
    let (last, f, x) =
      events-Echoed msg first.1 first.0 later
        (echo-Echoed conn w msg rest v is_open none_waits valid le fits good) (rw begun at h.1) in
    (
      (last.0, run_message_callback ∷ first.1 ++ last.1),
      rw (begun, f) refl,
      record { inv = x.inv; closing = x.closing; stream = x.stream; shut = x.shut },
    )
