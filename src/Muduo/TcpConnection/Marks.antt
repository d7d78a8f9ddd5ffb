-- ===== src/Muduo/TcpConnection/Marks.antt =====
-- The high-water mark of the output buffer.
use alexproject.Common.{
  ℕ, ◌+◌, ◌%◌, ◌^◌, ◌≡◌, refl, ap, sym, ◌∙◌, Bool, true, false, not, ◌&&◌, ◌||◌, List, [], ◌∷◌,
  ◌++◌, arith, length, length-append, drop, length-drop, Bool-cases, inl, inr, ◌==◌, ltb, leb,
  if◌then◌else◌,
}
use alexproject.Muduo.Buffer.{readable_bytes, append}
use alexproject.Muduo.Buffer.Invariant.{contents, readable, length-contents, append-contents}
use alexproject.Muduo.Channel.{is_writing, with_writing}
use alexproject.Muduo.TcpConnection.{
  TcpConnection, k_disconnected, is_state, Result, WriteResult, ewouldblock, epipe, econnreset,
  Effect, queue_write_complete, queue_high_water, update_channel, buffer_rest, write_now,
  send_in_loop,
}
use alexproject.Muduo.TcpConnection.Invariant.{Inv, pending, marks}
use alexproject.Muduo.TcpConnection.Send.{Fits}

-- What the user hears when the level of the buffer goes from `before` to `after`.
abbrev pub heard : TcpConnection → ℕ → ℕ → List ℕ
heard c before after =
    if leb c.high_water_mark after && ltb before c.high_water_mark && c.high_water_mark_callback
    then after ∷ []
    else []

heard-same : (c : TcpConnection) (n : ℕ) → heard c n n ≡ []
heard-same c n = ground arith

marks-mark :
    (b : Bool) (n e : ℕ)
    → (marks (if b then queue_high_water n ∷ [] else []) ≡ (if b then n ∷ [] else []))
      × (marks ((if b then queue_high_water n ∷ [] else []) ++ update_channel e ∷ [])
          ≡ (if b then n ∷ [] else []))
marks-mark true n e = (refl, refl)
marks-mark false n e = (refl, refl)

abbrev Marks : TcpConnection → Result → Type 0
Marks c out = marks out.1 ≡ heard c (length (pending c)) (length (pending out.0))

buffer_rest-Marks :
    (c : TcpConnection) (rest : List ℕ) → Inv c → Fits c rest → Marks c (buffer_rest c rest)
unfolding buffer_rest
buffer_rest-Marks c rest v fits =
    let before = length-contents c.output_buffer v.output_valid in
    let a = append-contents c.output_buffer rest v.output_valid fits in
    let after : length (contents (append c.output_buffer rest)) ≡ length (pending c) + length rest =
      ap length a.1 ∙ length-append (pending c) rest in
    let total : (readable_bytes c.output_buffer + length rest) % 2 ^ 64
        ≡ length (contents (append c.output_buffer rest)) =
      omega (arith, readable c.output_buffer v.output_valid, before) in
    let level = length (contents (append c.output_buffer rest)) in
    let crossed =
      leb c.high_water_mark level
      && ltb (length (pending c)) c.high_water_mark
      && c.high_water_mark_callback in
    elim (Bool-cases (length rest == 0)) [
      | inl none_left ↦ rw none_left (sym (heard-same c (length (pending c))))
      | inr some_left ↦ elim (Bool-cases (is_writing c.events)) [
        | inl w ↦ rw (some_left, w, total, sym before) (marks-mark crossed level 0).0
        | inr q ↦
            rw (some_left, q, total, sym before)
              (marks-mark crossed level (with_writing c.events)).1
      ]
    ]

marks-append :
    (b : Bool) (es : List Effect)
    → marks ((if b then queue_write_complete ∷ [] else []) ++ es) ≡ marks es
marks-append true es = refl
marks-append false es = refl

write_now-Marks :
    (c : TcpConnection) (chunk : List ℕ) (r : WriteResult)
    → Inv c
    → Fits c chunk
    → Marks c (write_now c chunk r)
unfolding write_now
write_now-Marks c chunk r v fits = elim (Bool-cases (ltb 0 r.count)) [
  | inl some_taken ↦
      let rest = drop r.count chunk in
      rw some_taken (
        marks-append (length rest == 0 && c.write_complete_callback) (buffer_rest c rest).1
        ∙ buffer_rest-Marks c rest v (omega (arith, length-drop r.count chunk)))
  | inr none_taken ↦ elim (Bool-cases (r.errno == ewouldblock)) [
    | inl full ↦ rw (none_taken, full) (buffer_rest-Marks c chunk v fits)
    | inr other ↦ elim (Bool-cases (r.errno == epipe || r.errno == econnreset)) [
      | inl gone ↦ rw (none_taken, other, gone) (sym (heard-same c (length (pending c))))
      | inr odd ↦ rw (none_taken, other, odd) (buffer_rest-Marks c chunk v fits)
    ]
  ]
]

-- On a connection that satisfies the invariant, with room for the bytes in the address space: a call of `sendInLoop` tells the user that the high-water mark is reached exactly when a
-- callback is set and the number of waiting bytes was below the mark before the call and is not below it afterwards; it
-- tells it once, with that number.
pub send_in_loop-marks :
    (c : TcpConnection) (chunk : List ℕ) (r : WriteResult)
    → Inv c
    → Fits c chunk
    → marks (send_in_loop c chunk r).1
      ≡ heard c (length (pending c)) (length (pending (send_in_loop c chunk r).0))
unfolding send_in_loop
send_in_loop-marks c chunk r v fits = elim (Bool-cases (is_state c.state k_disconnected)) [
  | inl gone ↦ rw gone (sym (heard-same c (length (pending c))))
  | inr live ↦
      elim (Bool-cases (not (is_writing c.events) && readable_bytes c.output_buffer == 0)) [
        | inl direct ↦ rw (live, direct) (write_now-Marks c chunk r v fits)
        | inr queue ↦ rw (live, queue) (buffer_rest-Marks c chunk v fits)
      ]
]
