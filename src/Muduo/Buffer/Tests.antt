-- ===== src/Muduo/Buffer/Tests.antt =====
-- Tests of the buffer.
use alexproject.Common.{◌≤◌, ◌≡◌, refl, [], ◌∷◌, none, some, length, arith}
use alexproject.Muduo.Buffer.{
  Buffer, new_buffer, readable_bytes, writeable_bytes, append, retrieve, retrieve_as_string, got,
  read_room, read_fd,
}
use alexproject.Muduo.Buffer.Invariant.{IsValid, contents, append-contents}
use alexproject.Muduo.Buffer.Retrieve.{retrieve-contents, retrieve_as_string-contents}
use alexproject.Muduo.Buffer.Fd.{Reads, read_fd-Reads}

-- The bytes 5 and 6 wait, there is room for two more, and a byte has been taken before.
abbrev small : Buffer
small = record {
  bytes = 0 ∷ 0 ∷ 0 ∷ 0 ∷ 0 ∷ 0 ∷ 0 ∷ 0 ∷ 4 ∷ 5 ∷ 6 ∷ 0 ∷ 0 ∷ [];
  reader_index = 9;
  write_index = 11;
}

small-IsValid : IsValid small
small-IsValid = omega arith

new_buffer_sizes : (readable_bytes (new_buffer 16) ≡ 0) × (writeable_bytes (new_buffer 16) ≡ 16)
unfolding new_buffer readable_bytes writeable_bytes
new_buffer_sizes = (refl, refl)

append_moves_to_front : append small (7 ∷ 8 ∷ 9 ∷ []) ≡ record {
  bytes = 0 ∷ 0 ∷ 0 ∷ 0 ∷ 0 ∷ 0 ∷ 0 ∷ 0 ∷ 5 ∷ 6 ∷ 7 ∷ 8 ∷ 9 ∷ [];
  reader_index = 8;
  write_index = 13;
}
unfolding append
append_moves_to_front = refl

read_fd_uses_both_areas : read_fd small (got (7 ∷ 8 ∷ 9 ∷ [])) ≡ (
  some 3,
  none,
  record {
    bytes = 0 ∷ 0 ∷ 0 ∷ 0 ∷ 0 ∷ 0 ∷ 0 ∷ 0 ∷ 5 ∷ 6 ∷ 7 ∷ 8 ∷ 9 ∷ [];
    reader_index = 8;
    write_index = 13;
  },
)
unfolding read_fd
read_fd_uses_both_areas = refl

append-contents_example :
    IsValid (append small (7 ∷ 8 ∷ 9 ∷ []))
    × (contents (append small (7 ∷ 8 ∷ 9 ∷ [])) ≡ 5 ∷ 6 ∷ 7 ∷ 8 ∷ 9 ∷ [])
    × (length (append small (7 ∷ 8 ∷ 9 ∷ [])).bytes ≤ 16)
append-contents_example = append-contents small (7 ∷ 8 ∷ 9 ∷ []) small-IsValid (omega arith)

retrieve-contents_example : IsValid (retrieve small 1) × (contents (retrieve small 1) ≡ 6 ∷ [])
retrieve-contents_example = retrieve-contents small 1 small-IsValid

retrieve_as_string-contents_example : retrieve_as_string small 1 ≡ some (5 ∷ [], retrieve small 1)
unfolding readable_bytes
retrieve_as_string-contents_example =
    retrieve_as_string-contents small 1 small-IsValid (ground arith)

read_fd-Reads_example : Reads small (got (7 ∷ 8 ∷ 9 ∷ [])) (read_fd small (got (7 ∷ 8 ∷ 9 ∷ [])))
unfolding read_room
read_fd-Reads_example = read_fd-Reads small (got (7 ∷ 8 ∷ 9 ∷ [])) small-IsValid (ground arith)
