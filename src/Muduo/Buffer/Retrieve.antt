-- ===== src/Muduo/Buffer/Retrieve.antt =====
-- Reading out of a buffer, and the buffer as a queue of bytes.
use alexproject.Common.{
  ℕ, ◌+◌, ◌-◌, ◌%◌, ◌≤◌, ◌<◌, ◌^◌, ◌≡◌, refl, sym, ap, ◌∙◌, [], some, arith, true, Bool-cases, inl,
  inr, ltb, leb, length, take, drop, drop-drop, drop-take, take_all, drop_all, take-take,
}
use alexproject.Muduo.Buffer.{
  Buffer, readable_bytes, retrieve, retrieve_all, retrieve_as_string, retrieve_all_as_string,
  peek_bytes, write_fd,
}
use alexproject.Muduo.Buffer.Invariant.{IsValid, contents, readable, length-contents}

-- In a valid buffer `retrieve` drops that many of the oldest bytes, or all of them where there are no more, and
-- the buffer stays valid.
pub retrieve-contents :
    (b : Buffer) (len : ℕ)
    → IsValid b
    → IsValid (retrieve b len) × (contents (retrieve b len) ≡ drop len (contents b))
unfolding retrieve retrieve_all
retrieve-contents b len v = elim (Bool-cases (ltb len (readable_bytes b))) [
  | inl t ↦
      let lt : len < b.write_index - b.reader_index = ground (arith, readable b v) in
      let end : (b.reader_index + len) % 2 ^ 64 ≡ b.reader_index + len = omega arith in
      rw (t, end)
        (
          omega arith,
          rw (
            drop-take (drop b.reader_index b.bytes) (b.write_index - b.reader_index) len
                (b.write_index - (b.reader_index + len)) (omega arith),
            drop-drop b.bytes b.reader_index len (b.reader_index + len) refl,
          ),
        )
  | inr f ↦
      let all : readable_bytes b ≤ len = ground arith in
      rw f (omega arith, sym (drop_all len (contents b) (omega (arith, length-contents b v))))
]

pub bytes-retrieve : (b : Buffer) (len : ℕ) → (retrieve b len).bytes ≡ b.bytes
unfolding retrieve retrieve_all
bytes-retrieve b len = ground arith

-- Asked for no more bytes than a valid buffer holds, `retrieveAsString` returns the oldest ones and
-- leaves the rest.
pub retrieve_as_string-contents :
    (b : Buffer) (len : ℕ)
    → IsValid b
    → len ≤ readable_bytes b
    → retrieve_as_string b len ≡ some (take len (contents b), retrieve b len)
unfolding retrieve_as_string peek_bytes
retrieve_as_string-contents b len v h =
    let fits : b.reader_index + len ≤ length b.bytes = omega (arith, readable b v) in
    let t : leb (b.reader_index + len) (length b.bytes) ≡ true = ground arith in
    rw (
      retrieve_as_string,
      peek_bytes,
      t,
      take-take (drop b.reader_index b.bytes) len (b.write_index - b.reader_index)
          (omega (arith, readable b v)),
    )

-- `retrieveAllAsString` returns what a valid buffer holds and leaves it valid and empty.
pub retrieve_all_as_string-contents :
    (b : Buffer)
    → IsValid b
    → (c : Buffer) × (retrieve_all_as_string b ≡ some (contents b, c))
      × IsValid c
      × (contents c ≡ [])
unfolding retrieve_all_as_string
retrieve_all_as_string-contents b v =
    let n = readable_bytes b in
    let r = retrieve-contents b n v in
    (
      retrieve b n,
      retrieve_as_string-contents b n v (omega arith)
          ∙ ap (λ l. some (l, retrieve b n))
              (take_all n (contents b) (omega (arith, length-contents b v))),
      r.0,
      r.1 ∙ drop_all n (contents b) (omega (arith, length-contents b v)),
    )

-- A valid buffer offers exactly its readable bytes to `write`.
pub write_fd-contents : (b : Buffer) → IsValid b → write_fd b ≡ some (contents b)
unfolding write_fd
write_fd-contents b v =
    let fits : b.reader_index + (b.write_index - b.reader_index) ≤ length b.bytes = omega arith in
    let t : leb (b.reader_index + (b.write_index - b.reader_index)) (length b.bytes) ≡ true =
      ground arith in
    rw (write_fd, readable b v, t)
