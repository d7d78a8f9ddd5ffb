-- ===== src/Muduo/Channel.antt =====
-- project/MyMuduo/Channel.h and Channel.cc: a descriptor, the events it asks for, and the dispatch
-- of the events that came.
pub mod Events
pub mod Dispatch
mod Tests
use Prim.Native.Nat.{bit_and, bit_or}
use alexproject.Common.{
  ℕ, ◌-◌, ◌^◌, Bool, true, false, not, ◌&&◌, List, [], ◌∷◌, ◌++◌, ◌==◌, if◌then◌else◌,
}

-- The constants of <sys/epoll.h>.
abbrev pub epollin : ℕ
epollin = 1

abbrev pub epollpri : ℕ
epollpri = 2

abbrev pub epollout : ℕ
epollout = 4

abbrev pub epollerr : ℕ
epollerr = 8

abbrev pub epollhup : ℕ
epollhup = 16

abbrev pub k_none_event : ℕ
k_none_event = 0

abbrev pub k_read_event : ℕ
k_read_event = bit_or epollin epollpri

abbrev pub k_write_event : ℕ
k_write_event = epollout

-- `index_` takes the values kNew (-1), kAdded (1) and kDeleted (2) of EPollPoller.cc alone.
pub data Index : Type 0 where
  k_new k_added k_deleted : Index

-- A callback is a flag: whether the `std::function` holds a target.
pub record Channel : Type 0 where
  pub fd : ℕ
  pub events : ℕ
  pub revents : ℕ
  pub index : Index
  pub tied : Bool
  pub read_callback : Bool
  pub write_callback : Bool
  pub close_callback : Bool
  pub error_callback : Bool

unfoldable pub new_channel : ℕ → Channel
new_channel fd = record {
  fd = fd;
  events = 0;
  revents = 0;
  index = k_new;
  tied = false;
  read_callback = false;
  write_callback = false;
  close_callback = false;
  error_callback = false;
}

unfoldable pub tie : Channel → Channel
tie c = record c { tied = true }

-- `a & b` as a condition.
abbrev pub any_bit : ℕ → ℕ → Bool
any_bit a b = not (bit_and a b == 0)

-- `a & ~b` on an `int`.
abbrev pub clear_bits : ℕ → ℕ → ℕ
clear_bits a b = bit_and a (2 ^ 32 - 1 - b)

-- What the five methods do to `events_` before they call `update()`.
unfoldable pub with_reading : ℕ → ℕ
with_reading events = bit_or events k_read_event

unfoldable pub without_reading : ℕ → ℕ
without_reading events = clear_bits events k_read_event

unfoldable pub with_writing : ℕ → ℕ
with_writing events = bit_or events k_write_event

unfoldable pub without_writing : ℕ → ℕ
without_writing events = clear_bits events k_write_event

unfoldable pub is_none_event : ℕ → Bool
is_none_event events = events == k_none_event

unfoldable pub is_writing : ℕ → Bool
is_writing events = any_bit events k_write_event

unfoldable pub is_reading : ℕ → Bool
is_reading events = any_bit events k_read_event

-- A callback that runs; the read callback is given the time of the poll.
pub data Call : Type 0 where
  close_call error_call write_call : Call
  read_call : ℕ → Call

abbrev when : Bool → Call → List Call
when b c = if b then c ∷ [] else []

-- The callbacks do not touch `revents_`, so they are listed in the order in which they run.
unfoldable pub handle_event_with_guard : Channel → ℕ → List Call
handle_event_with_guard c time =
    when (any_bit c.revents epollhup && not (any_bit c.revents epollin) && c.close_callback)
      close_call
    ++ (when (any_bit c.revents epollerr && c.error_callback) error_call
        ++ (when (any_bit c.revents epollin && c.read_callback) (read_call time)
            ++ when (any_bit c.revents epollout && c.write_callback) write_call))

-- `alive`: whether `tie_.lock()` finds the object.
unfoldable pub handle_event : Bool → Channel → ℕ → List Call
unfolding handle_event_with_guard
handle_event alive c time =
    if c.tied
    then (if alive then handle_event_with_guard c time else [])
    else handle_event_with_guard c time
