-- ===== src/Muduo/Buffer/Invariant.antt =====
-- The indices of a buffer stay in order and inside the vector, and what lies between them is a
-- queue of bytes.
use alexproject.Common.{
  ℕ, ◌+◌, ◌-◌, ◌%◌, ◌≤◌, ◌<◌, ◌^◌, ◌≡◌, refl, ap, List, [], ◌++◌, arith, Bool-cases, inl, inr, ltb,
  length, take, drop, replicate, blit, resize, length-append, length-take, length-drop,
  length-replicate, length-blit, slice-blit, slice-append, take_all,
}
use alexproject.Muduo.Buffer.{
  Buffer, new_buffer, readable_bytes, writeable_bytes, make_space, ensure_writeable_bytes,
  put_bytes, append,
}

-- The order of Buffer.h's diagram; a vector holds fewer than 2^63 bytes.
pub record IsValid (b : Buffer) : Type 0 where
  pub prepend : 8 ≤ b.reader_index
  pub ordered : b.reader_index ≤ b.write_index
  pub inside : b.write_index ≤ length b.bytes
  pub small : length b.bytes < 2 ^ 63

-- The readable bytes, oldest first.
abbrev pub contents : Buffer → List ℕ
contents b = take (b.write_index - b.reader_index) (drop b.reader_index b.bytes)

pub readable : (b : Buffer) → IsValid b → readable_bytes b ≡ b.write_index - b.reader_index
unfolding readable_bytes
readable b v = omega arith

pub writeable : (b : Buffer) → IsValid b → writeable_bytes b ≡ length b.bytes - b.write_index
unfolding writeable_bytes
writeable b v = omega arith

pub length-contents : (b : Buffer) → IsValid b → length (contents b) ≡ readable_bytes b
length-contents b v = omega (
  arith,
  readable b v,
  length-take (b.write_index - b.reader_index) (drop b.reader_index b.bytes),
  length-drop b.reader_index b.bytes,
)

pub new_buffer-IsValid :
    (n : ℕ) → n < 2 ^ 62 → IsValid (new_buffer n) × (contents (new_buffer n) ≡ [])
unfolding new_buffer
new_buffer-IsValid n h = (omega (arith, length-replicate {0} {A = ℕ} ((8 + n) % 2 ^ 64) 0), refl)

-- What `makeSpace` gives: the same readable bytes, room for `len` more, and no more vector than
-- that needs.
record Spaced (b : Buffer) (len : ℕ) (c : Buffer) : Type 0 where
  valid : IsValid c
  same : contents c ≡ contents b
  room : len ≤ length c.bytes - c.write_index
  grown : length c.bytes ≤ length b.bytes + len

grow-Spaced :
    (b : Buffer) (len : ℕ)
    → IsValid b
    → length b.bytes + len < 2 ^ 63
    → length b.bytes - b.write_index < len
    → Spaced b len (record b { bytes = resize b.bytes (b.write_index + len) 0 })
grow-Spaced b len v h more =
    let all : take (b.write_index + len) b.bytes ≡ b.bytes = take_all _ b.bytes (omega arith) in
    let e : resize b.bytes (b.write_index + len) 0
        ≡ b.bytes ++ replicate (b.write_index + len - length b.bytes) 0 =
      ap (λ l. l ++ replicate (b.write_index + len - length b.bytes) 0) all in
    let size : length (resize b.bytes (b.write_index + len) 0) ≡ b.write_index + len = rw e (
      omega (
        arith,
        length-append b.bytes (replicate (b.write_index + len - length b.bytes) 0),
        length-replicate {0} {A = ℕ} (b.write_index + len - length b.bytes) 0,
      )) in
    record {
      valid = omega arith;
      same = rw e (
          slice-append b.bytes (replicate (b.write_index + len - length b.bytes) 0) b.reader_index
            (b.write_index - b.reader_index) (omega arith));
      room = omega arith;
      grown = omega arith;
    }

compact-Spaced :
    (b : Buffer) (len : ℕ)
    → IsValid b
    → len + 8 ≤ length b.bytes - b.write_index + b.reader_index
    → Spaced b len (record {
      bytes = blit b.bytes 8 (contents b);
      reader_index = 8;
      write_index = 8 + (b.write_index - b.reader_index);
    })
compact-Spaced b len v h =
    let size : length (contents b) ≡ b.write_index - b.reader_index =
      omega (arith, length-contents b v, readable b v) in
    let whole : length (blit b.bytes 8 (contents b)) ≡ length b.bytes =
      length-blit b.bytes 8 (contents b) in
    record {
      valid = omega arith;
      same =
          slice-blit b.bytes 8 0 8 (8 + (b.write_index - b.reader_index) - 8) (contents b)
            (omega arith) (omega arith) (omega arith);
      room = omega arith;
      grown = omega arith;
    }

make_space-Spaced :
    (b : Buffer) (len : ℕ)
    → IsValid b
    → length b.bytes + len < 2 ^ 63
    → length b.bytes - b.write_index < len
    → Spaced b len (make_space b len)
unfolding make_space
make_space-Spaced b len v h more =
    let free : (length b.bytes + 2 ^ 64 - b.write_index) % 2 ^ 64 ≡ length b.bytes - b.write_index =
      omega arith in
    let held : (b.write_index + 2 ^ 64 - b.reader_index) % 2 ^ 64 ≡ b.write_index - b.reader_index =
      omega arith in
    let both : (length b.bytes - b.write_index + b.reader_index) % 2 ^ 64
        ≡ length b.bytes - b.write_index + b.reader_index =
      omega arith in
    let want : (len + 8) % 2 ^ 64 ≡ len + 8 = omega arith in
    let end : (b.write_index + len) % 2 ^ 64 ≡ b.write_index + len = omega arith in
    let moved : (8 + (b.write_index - b.reader_index)) % 2 ^ 64
        ≡ 8 + (b.write_index - b.reader_index) =
      omega arith in
    rw (free, held, both, want, end, moved)
      (elim (Bool-cases (ltb (length b.bytes - b.write_index + b.reader_index) (len + 8))) [
        | inl t ↦ rw t (grow-Spaced b len v h more)
        | inr f ↦ rw f (compact-Spaced b len v (ground arith))
      ])

ensure-Spaced :
    (b : Buffer) (len : ℕ)
    → IsValid b
    → length b.bytes + len < 2 ^ 63
    → Spaced b len (ensure_writeable_bytes b len)
unfolding ensure_writeable_bytes
ensure-Spaced b len v h = elim (Bool-cases (ltb (writeable_bytes b) len)) [
  | inl t ↦ rw (t) (make_space-Spaced b len v h (ground (arith, writeable b v)))
  | inr f ↦
      rw (f) (record {
        valid = v;
        same = refl;
        room = ground (arith, writeable b v);
        grown = omega arith;
      })
]

-- Bytes copied to `beginWrite()` where they fit come after those that were readable.
pub put_bytes_lem :
    (b : Buffer) (chunk : List ℕ)
    → IsValid b
    → length chunk ≤ length b.bytes - b.write_index
    → IsValid (put_bytes b chunk) × (contents (put_bytes b chunk) ≡ contents b ++ chunk)
unfolding put_bytes
put_bytes_lem b chunk v fits =
    let end : (b.write_index + length chunk) % 2 ^ 64 ≡ b.write_index + length chunk =
      omega arith in
    rw end (
      omega (arith, length-blit b.bytes b.write_index chunk),
      slice-blit b.bytes b.reader_index (b.write_index - b.reader_index) b.write_index
          (b.write_index + length chunk - b.reader_index) chunk (omega arith) (omega arith)
          (omega arith),
    )

-- In a valid buffer with room for the new bytes in the address space, `append` keeps the buffer
-- valid, and what is readable afterwards is what was readable before, followed by the new bytes.
pub append-contents :
    (b : Buffer) (chunk : List ℕ)
    → IsValid b
    → length b.bytes + length chunk < 2 ^ 63
    → IsValid (append b chunk)
      × (contents (append b chunk) ≡ contents b ++ chunk)
      × (length (append b chunk).bytes ≤ length b.bytes + length chunk)
unfolding append
append-contents b chunk v h =
    let s = ensure-Spaced b (length chunk) v h in
    let c = ensure_writeable_bytes b (length chunk) in
    let p = put_bytes_lem c chunk s.valid s.room in
    (
      p.0,
      rw p.1 (ap (λ l. l ++ chunk) s.same),
      omega (arith, s, length-blit c.bytes c.write_index chunk),
    )
