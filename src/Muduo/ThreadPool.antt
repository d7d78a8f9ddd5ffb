-- ===== src/Muduo/ThreadPool.antt =====
-- project/MyMuduo/EventLoopThreadPool.h and EventLoopThreadPool.cc: the loops of a server. An
-- `EventLoop*` is a number.
pub mod RoundRobin
mod Tests
use alexproject.Common.{
  ℕ, zero, suc, ◌+◌, Bool, true, false, not, ◌&&◌, List, [], ◌∷◌, ◌++◌, Option, none, some, ◌==◌,
  leb, if◌then◌else◌, length, get_elem?,
}
use alexproject.Common.Decimal.{Text, decimal}

-- `threads` holds the names of the threads; `threads_[i]` runs the loop `loops_[i]`.
pub record ThreadPool : Type 0 where
  pub base_loop : ℕ
  pub name : Text
  pub started : Bool
  pub num_threads : ℕ
  pub next : ℕ
  pub threads : List Text
  pub loops : List ℕ

unfoldable pub new_thread_pool : ℕ → Text → ThreadPool
new_thread_pool base_loop name = record {
  base_loop = base_loop;
  name = name;
  started = false;
  num_threads = 0;
  next = 0;
  threads = [];
  loops = [];
}

unfoldable pub set_thread_num : ThreadPool → ℕ → ThreadPool
set_thread_num p num_threads = record p { num_threads = num_threads }

-- The rounds of the loop in `start` from `i` on: `start_loop i` is the address that the loop of thread `i` gets.
pub start_threads : (ℕ → ℕ) → ThreadPool → ℕ → ℕ → ThreadPool
start_threads start_loop p i zero = p
start_threads start_loop p i (suc left) =
    start_threads start_loop
      (record p {
        threads = p.threads ++ (p.name ++ decimal i) ∷ [];
        loops = p.loops ++ start_loop i ∷ [];
      })
      (i + 1) left

-- The loops of the threads from `i` on.
abbrev pub thread_loops : (ℕ → ℕ) → ℕ → ℕ → List ℕ
thread_loops start_loop i zero = []
thread_loops start_loop i (suc left) = start_loop i ∷ thread_loops start_loop (i + 1) left

-- `start`, and the loops that the initial callback is run on: each thread runs it on its own loop, and
-- without threads it runs on the base loop.
unfoldable pub start : (ℕ → ℕ) → Bool → ThreadPool → ThreadPool × List ℕ
unfolding start_threads
start start_loop cb p =
    let q = start_threads start_loop (record p { started = true }) 0 p.num_threads in
    (
      q,
      if cb
          then (if p.num_threads == 0
              then p.base_loop ∷ []
              else thread_loops start_loop 0 p.num_threads)
          else [],
    )

-- `loops_[next_]`; out of range the program reads past the end of the vector, and the result is `none`.
unfoldable pub get_next_loop : ThreadPool → Option (ℕ × ThreadPool)
get_next_loop p =
    let after = record p { next = if leb (length p.loops) (p.next + 1) then 0 else p.next + 1 } in
    if length p.loops == 0
    then some (p.base_loop, p)
    else elim (get_elem? p.loops p.next) [ none ↦ none | some loop ↦ some (loop, after) ]

pub get_all_loops : ThreadPool → List ℕ
get_all_loops p = if length p.loops == 0 then p.base_loop ∷ [] else p.loops
