-- ===== src/Muduo/LoopThread.antt =====
-- project/MyMuduo/EventLoopThread.h and EventLoopThread.cc: a thread that runs a loop, and the caller of
-- `startLoop` who waits for the loop's address.
pub mod Handshake
mod Tests
use alexproject.Common.{ℕ, Bool, true, false, Option, none, some, List, [], ◌∷◌}

-- The caller: before `startLoop`, at the test of `while`, in `cond_.wait`, or back with an address.
pub data Caller : Type 0 where
  before_start at_test waiting : Caller
  returned : ℕ → Caller

-- The thread: not yet started, making its loop and calling `callback_`, before the locked assignment of `loop_`, in
-- `loop()`, before the last assignment, or done.
pub data Runner : Type 0 where
  unborn initialising publishing looping clearing done : Runner

-- `woken`: a notification has reached the waiting caller. `address` is where the thread's loop is.
pub record LoopThread : Type 0 where
  pub loop : Option ℕ
  pub exiting : Bool
  pub caller : Caller
  pub runner : Runner
  pub woken : Bool
  pub address : ℕ

unfoldable pub new_loop_thread : ℕ → LoopThread
new_loop_thread address = record {
  loop = none;
  exiting = false;
  caller = before_start;
  runner = unborn;
  woken = false;
  address = address;
}

-- `thread_.start()`
unfoldable pub start_thread : LoopThread → LoopThread
start_thread t = record t { caller = at_test; runner = initialising }

-- The test of `while (loop_ == nullptr)` with the lock held: wait, or return what `loop_` holds.
unfoldable pub test_loop : LoopThread → LoopThread
test_loop t = elim t.loop [
  | none ↦ record t { caller = waiting; woken = false }
  | some a ↦ record t { caller = returned a }
]

-- `wait` returns, with the lock.
unfoldable pub wake : LoopThread → LoopThread
wake t = record t { caller = at_test; woken = false }

unfoldable pub end_callback : LoopThread → LoopThread
end_callback t = record t { runner = publishing }

abbrev pub is_waiting : Caller → Bool
is_waiting waiting = true
is_waiting _ = false

-- `loop_ = &loop` and `notify_one`, which is lost on a caller who does not wait.
unfoldable pub publish : LoopThread → LoopThread
publish t = record t { loop = some t.address; runner = looping; woken = is_waiting t.caller }

unfoldable pub leave_loop : LoopThread → LoopThread
leave_loop t = record t { runner = clearing }

unfoldable pub clear_loop : LoopThread → LoopThread
clear_loop t = record t { loop = none; runner = done }

-- The destructor: the loop that is told to quit and whose thread is joined, if there is one.
unfoldable pub destroy : LoopThread → LoopThread × Option ℕ
destroy t = (record t { exiting = true }, t.loop)
