-- ===== src/Muduo/ThreadPool/Tests.antt =====
-- Tests of the thread pool.
use alexproject.Common.{◌+◌, ◌≡◌, refl, true, [], ◌∷◌, some, arith}
use alexproject.Common.Decimal.{decimal}
use alexproject.Muduo.ThreadPool.{ThreadPool, start, set_thread_num, new_thread_pool}
use alexproject.Muduo.ThreadPool.RoundRobin.{next_loops, next_loops-rotation}

-- Three loops, and the last of them is next.
abbrev three : ThreadPool
three = record {
  base_loop = 9;
  name = [];
  started = true;
  num_threads = 3;
  next = 2;
  threads = [];
  loops = 5 ∷ 6 ∷ 7 ∷ [];
}

next_loops-rotation_example : next_loops 3 three ≡ some (7 ∷ 5 ∷ 6 ∷ [], three)
next_loops-rotation_example = next_loops-rotation three (ground arith)

abbrev two : ThreadPool
two = (start (λ i. i + 5) true (set_thread_num (new_thread_pool 9 (80 ∷ [])) 2)).0

thread_names : two.threads ≡ (80 ∷ 48 ∷ []) ∷ (80 ∷ 49 ∷ []) ∷ []
unfolding start new_thread_pool set_thread_num decimal
thread_names = refl
