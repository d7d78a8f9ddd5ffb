-- ===== src/Muduo/Buffer.antt =====
-- project/MyMuduo/Buffer.h and Buffer.cc: the byte buffer between a socket and the application.
pub mod Invariant
pub mod Retrieve
pub mod Fd
mod Tests
use alexproject.Common.{
  ℕ, ◌+◌, ◌-◌, ◌≡◌, Bool, List, ◌++◌, Option, none, some, ltb, leb, if◌then◌else◌, length, take,
  drop, replicate, blit, resize, add_size, sub_size,
}

-- `buffer_` holds `char`s that are only moved, so a byte is any number.
pub record Buffer : Type 0 where
  pub bytes : List ℕ
  pub reader_index : ℕ
  pub write_index : ℕ

abbrev pub k_cheap_prepend : ℕ
k_cheap_prepend = 8

abbrev pub k_initial_size : ℕ
k_initial_size = 1024

-- `sizeof extrabuf` in `readFd`.
abbrev pub extrabuf_size : ℕ
extrabuf_size = 65536

unfoldable pub new_buffer : ℕ → Buffer
new_buffer initial_size = record {
  bytes = replicate (add_size k_cheap_prepend initial_size) 0;
  reader_index = k_cheap_prepend;
  write_index = k_cheap_prepend;
}

unfoldable pub readable_bytes : Buffer → ℕ
readable_bytes b = sub_size b.write_index b.reader_index

unfoldable pub writeable_bytes : Buffer → ℕ
writeable_bytes b = sub_size (length b.bytes) b.write_index

unfoldable pub prependable_bytes : Buffer → ℕ
prependable_bytes b = b.reader_index

-- The `len` bytes from `peek()` on; `none` where the read leaves the vector.
pub peek_bytes : Buffer → ℕ → Option (List ℕ)
peek_bytes b len =
    if leb (b.reader_index + len) (length b.bytes)
    then some (take len (drop b.reader_index b.bytes))
    else none

pub retrieve_all : Buffer → Buffer
retrieve_all b = record b { reader_index = k_cheap_prepend; write_index = k_cheap_prepend }

unfoldable pub retrieve : Buffer → ℕ → Buffer
unfolding readable_bytes retrieve_all
retrieve b len =
    if ltb len (readable_bytes b)
    then record b { reader_index = add_size b.reader_index len }
    else retrieve_all b

pub retrieve_as_string : Buffer → ℕ → Option (List ℕ × Buffer)
unfolding peek_bytes retrieve
retrieve_as_string b len = elim (peek_bytes b len) [
  | none ↦ none
  | some result ↦ some (result, retrieve b len)
]

unfoldable pub retrieve_all_as_string : Buffer → Option (List ℕ × Buffer)
unfolding retrieve_as_string readable_bytes
retrieve_all_as_string b = retrieve_as_string b (readable_bytes b)

pub make_space : Buffer → ℕ → Buffer
unfolding writeable_bytes prependable_bytes readable_bytes
make_space b len =
    if ltb (add_size (writeable_bytes b) (prependable_bytes b)) (add_size len k_cheap_prepend)
    then record b { bytes = resize b.bytes (add_size b.write_index len) 0 }
    else record b {
      bytes = blit b.bytes k_cheap_prepend (take (readable_bytes b) (drop b.reader_index b.bytes));
      reader_index = k_cheap_prepend;
      write_index = add_size k_cheap_prepend (readable_bytes b);
    }

pub ensure_writeable_bytes : Buffer → ℕ → Buffer
unfolding writeable_bytes make_space
ensure_writeable_bytes b len = if ltb (writeable_bytes b) len then make_space b len else b

-- `std::copy` to `beginWrite()`.
pub put_bytes : Buffer → List ℕ → Buffer
put_bytes b chunk = record b {
  bytes = blit b.bytes b.write_index chunk;
  write_index = add_size b.write_index (length chunk);
}

unfoldable pub append : Buffer → List ℕ → Buffer
unfolding ensure_writeable_bytes put_bytes
append b chunk = put_bytes (ensure_writeable_bytes b (length chunk)) chunk

-- What `readv` and `write` return: a count with what it stands for, or -1 with `errno`.
pub data ReadResult : Type 0 where
  got : List ℕ → ReadResult
  read_error : ℕ → ReadResult

-- `iov_len`s of the one or two buffers offered to `readv`, added up.
unfoldable pub read_room : Buffer → ℕ
unfolding writeable_bytes
read_room b =
    let writable = writeable_bytes b in
    if ltb writable extrabuf_size then writable + extrabuf_size else writable

-- `readv` fills the vector's free part first and `extrabuf` after it.
unfoldable pub read_fd : Buffer → ReadResult → Option ℕ × Option ℕ × Buffer
unfolding writeable_bytes append
read_fd b (read_error e) = (none, some e, b)
read_fd b (got chunk) =
    let writable = writeable_bytes b in
    let n = length chunk in
    let filled = record b { bytes = blit b.bytes b.write_index (take writable chunk) } in
    if leb n writable
    then (some n, none, record filled { write_index = add_size b.write_index n })
    else (
      some n,
      none,
      append (record filled { write_index = length b.bytes }) (drop writable chunk),
    )

-- What `writeFd` offers to `write`; its result is what `write` returns.
pub write_fd : Buffer → Option (List ℕ)
unfolding peek_bytes readable_bytes
write_fd b = peek_bytes b (readable_bytes b)
