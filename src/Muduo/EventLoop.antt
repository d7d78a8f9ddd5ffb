-- ===== src/Muduo/EventLoop.antt =====
-- project/MyMuduo/EventLoop.h and EventLoop.cc: the loop of one thread, and what other threads do
-- to it. A callback (`Functor`) is an element of a parameter type.
pub mod Steps
pub mod Wakeup
pub mod Order
pub mod Creation
mod Tests
use alexproject.Common.{
  ℕ, ◌+◌, ◌-◌, ◌^◌, Bool, true, false, not, ◌||◌, List, [], ◌∷◌, ◌++◌, ◌==◌, if◌then◌else◌,
}

abbrev pub k_poll_time_ms : ℕ
k_poll_time_ms = 10000

-- Where the loop's thread is: outside `loop()`, at the test of `while`, in `poll`, in the callbacks
-- of the active channels, before the swap in `doPendingFunctors`, or in its loop.
pub data Phase : Type 0 where
  outside testing polling dispatching swapping running : Phase

module _ (F : Type 0) where
  -- `running_functors` is what is left of the local `functors` of `doPendingFunctors`; `wakeup_count` is the
  -- counter of the eventfd.
  pub record EventLoop : Type 0 where
    pub phase : Phase
    pub looping : Bool
    pub quit : Bool
    pub calling_pending_functors : Bool
    pub pending_functors : List F
    pub running_functors : List F
    pub wakeup_count : ℕ

  pub new_event_loop : EventLoop
  new_event_loop = record {
    phase = outside;
    looping = false;
    quit = false;
    calling_pending_functors = false;
    pending_functors = [];
    running_functors = [];
    wakeup_count = 0;
  }

  -- `write` of 1 to the eventfd; at its greatest value, 2^64 - 2, the write fails and is logged.
  unfoldable pub wakeup : EventLoop → EventLoop
  wakeup l = record l {
    wakeup_count = if l.wakeup_count == 2 ^ 64 - 2 then l.wakeup_count else l.wakeup_count + 1;
  }

  -- `read` of the eventfd takes the whole counter.
  unfoldable pub handle_read : EventLoop → EventLoop
  handle_read l = record l { wakeup_count = 0 }

  -- The locked part of `queueInLoop`.
  unfoldable pub push_functor : EventLoop → F → EventLoop
  push_functor l cb = record l { pending_functors = l.pending_functors ++ cb ∷ [] }

  -- The condition under which `queueInLoop` calls `wakeup`.
  unfoldable pub wants_wakeup : Bool → EventLoop → Bool
  wants_wakeup in_loop_thread l = not in_loop_thread || l.calling_pending_functors

  unfoldable pub queue_in_loop : Bool → EventLoop → F → EventLoop
  unfolding push_functor wants_wakeup wakeup
  queue_in_loop in_loop_thread l cb =
      let pushed = push_functor l cb in
      if wants_wakeup in_loop_thread pushed then wakeup pushed else pushed

  -- `runInLoop`: the callbacks that run at once, and the loop afterwards.
  unfoldable pub run_in_loop : Bool → EventLoop → F → List F × EventLoop
  unfolding queue_in_loop
  run_in_loop true l cb = (cb ∷ [], l)
  run_in_loop false l cb = ([], queue_in_loop false l cb)

  -- `quit()`: the write of `quit_`, and whether `wakeup` follows.
  unfoldable pub set_quit : EventLoop → EventLoop
  set_quit l = record l { quit = true }

  unfoldable pub quit : Bool → EventLoop → EventLoop
  unfolding set_quit wakeup
  quit in_loop_thread l = if in_loop_thread then set_quit l else wakeup (set_quit l)

  -- The callbacks that one callback queues while it runs in the loop's thread.
  unfoldable pub queue_all : EventLoop → List F → EventLoop
  unfolding queue_in_loop
  queue_all l [] = l
  queue_all l (cb ∷ cbs) = queue_all (queue_in_loop true l cb) cbs

  -- The pieces of `loop()`.
  unfoldable pub enter_loop : EventLoop → EventLoop
  enter_loop l = record l { looping = true; quit = false; phase = testing }

  -- The test of `while(!quit_)`.
  unfoldable pub test_quit : EventLoop → EventLoop
  test_quit l =
      if l.quit then record l { looping = false; phase = outside } else record l { phase = polling }

  -- The pieces of `doPendingFunctors`.
  unfoldable pub begin_functors : EventLoop → EventLoop
  begin_functors l = record l { calling_pending_functors = true; phase = swapping }

  unfoldable pub swap_functors : EventLoop → EventLoop
  swap_functors l = record l {
    running_functors = l.pending_functors;
    pending_functors = [];
    phase = running;
  }

  unfoldable pub end_functors : EventLoop → EventLoop
  end_functors l = record l { calling_pending_functors = false; phase = testing }

  -- `doPendingFunctors` as one call, with what each callback queues, where no other thread comes between.
  unfoldable pub run_functors : (F → List F) → EventLoop → List F → EventLoop
  unfolding queue_all
  run_functors queues l [] = l
  run_functors queues l (cb ∷ cbs) =
      run_functors queues (queue_all (record l { running_functors = cbs }) (queues cb)) cbs

  unfoldable pub do_pending_functors : (F → List F) → EventLoop → EventLoop
  unfolding begin_functors swap_functors end_functors run_functors
  do_pending_functors queues l =
      let swapped = swap_functors (begin_functors l) in
      end_functors (run_functors queues swapped swapped.running_functors)
