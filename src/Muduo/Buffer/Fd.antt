-- ===== src/Muduo/Buffer/Fd.antt =====
-- Buffer.cc: reading a socket into a buffer.
use alexproject.Common.{
  ℕ, ◌+◌, ◌-◌, ◌%◌, ◌≤◌, ◌<◌, ◌^◌, ◌≡◌, refl, ap, ◌∙◌, List, ◌++◌, Option, none, some, arith,
  Bool-cases, inl, inr, leb, length, take, drop, blit, append_assoc, length-take, length-drop,
  length-blit, take_all, take-append-drop,
}
use alexproject.Muduo.Buffer.{
  Buffer, writeable_bytes, put_bytes, ReadResult, got, read_error, read_room, read_fd,
}
use alexproject.Muduo.Buffer.Invariant.{
  IsValid, contents, writeable, put_bytes_lem, append-contents,
}

-- What `readFd` gives: the count or the error, and the buffer.
abbrev pub Reads : Buffer → ReadResult → Option ℕ × Option ℕ × Buffer → Type 0
Reads b (read_error e) r = r ≡ (none, some e, b)
Reads b (got chunk) r =
    (r.0 ≡ some (length chunk))
    × (r.1 ≡ none)
    × IsValid r.2
    × (contents r.2 ≡ contents b ++ chunk)
    × (length r.2.bytes ≤ length b.bytes + length chunk)

abbrev pub InRoom : Buffer → ReadResult → Type 0
InRoom b (read_error e) = Unit
InRoom b (got chunk) = (length chunk ≤ read_room b) × (length b.bytes + length chunk < 2 ^ 63)

fill :
    (b : Buffer) (chunk : List ℕ)
    → IsValid b
    → length chunk ≤ length b.bytes - b.write_index
    → IsValid (put_bytes b chunk)
      × (contents (put_bytes b chunk) ≡ contents b ++ chunk)
      × (length (put_bytes b chunk).bytes ≡ length b.bytes)
unfolding put_bytes
fill b chunk v h =
    let p = put_bytes_lem b chunk v h in (p.0, p.1, length-blit b.bytes b.write_index chunk)

-- The vector's part filled up, as `readFd` leaves it before it appends the rest.
abbrev filled : Buffer → List ℕ → Buffer
filled b chunk = record b {
  bytes = blit b.bytes b.write_index (take (writeable_bytes b) chunk);
  write_index = length b.bytes;
}

filled_lem :
    (b : Buffer) (chunk : List ℕ)
    → IsValid b
    → writeable_bytes b ≤ length chunk
    → IsValid (filled b chunk)
      × (contents (filled b chunk) ≡ contents b ++ take (writeable_bytes b) chunk)
      × (length (filled b chunk).bytes ≡ length b.bytes)
unfolding put_bytes
filled_lem b chunk v h =
    let first = take (writeable_bytes b) chunk in
    let p = fill b first v (omega (arith, writeable b v, length-take (writeable_bytes b) chunk)) in
    let e : (b.write_index + length first) % 2 ^ 64 ≡ length b.bytes =
      omega (arith, writeable b v, length-take (writeable_bytes b) chunk) in
    rw e at p

-- In a valid buffer with room for the new bytes in the address space, and with no more bytes read than the two areas
-- hold: `readFd` saves `errno` of a failure and leaves the buffer alone; otherwise every byte read is appended, whether
-- it went to the vector or to `extrabuf`, and the buffer stays valid.
pub read_fd-Reads : (b : Buffer) (r : ReadResult) → IsValid b → InRoom b r → Reads b r (read_fd b r)
unfolding read_fd put_bytes
read_fd-Reads b (read_error e) v h = refl
read_fd-Reads b (got chunk) v h = elim (Bool-cases (leb (length chunk) (writeable_bytes b))) [
  | inl t ↦
      let p = fill b chunk v (ground (arith, writeable b v)) in
      rw (t, take_all (writeable_bytes b) chunk (ground arith))
        (refl, refl, p.0, p.1, omega (arith, p.2))
  | inr f ↦
      let p = filled_lem b chunk v (ground arith) in
      let rest = drop (writeable_bytes b) chunk in
      let a =
        append-contents (filled b chunk) rest p.0
          (omega (arith, p.2, h.1, length-drop (writeable_bytes b) chunk)) in
      rw f (
        refl,
        refl,
        a.0,
        a.1
            ∙ ap (λ l. l ++ rest) p.1
            ∙ append_assoc (contents b) (take (writeable_bytes b) chunk) rest
            ∙ ap (λ l. contents b ++ l) (take-append-drop (writeable_bytes b) chunk),
        omega (arith, a.2, p.2, length-drop (writeable_bytes b) chunk),
      )
]
