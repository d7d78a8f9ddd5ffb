-- ===== src/Muduo/ThreadPool/RoundRobin.antt =====
-- The loops are handed out in turn.
use alexproject.Common.{
  ℕ, zero, suc, ◌+◌, ◌-◌, ◌<◌, ◌≡◌, refl, ap, ◌∙◌, ◌⊎◌, inl, inr, true, false, List, [], ◌∷◌, ◌++◌,
  Option, some, arith, length, get_elem?, take, drop, ◌==◌, leb, if◌then◌else◌, ◌>>=◌, append_assoc,
  append-nil, drop_all,
}
use alexproject.Common.Decimal.{Text, decimal}
use alexproject.Muduo.ThreadPool.{
  ThreadPool, start_threads, start, get_next_loop, get_all_loops, thread_loops, set_thread_num,
  new_thread_pool,
}

-- There is no loop, or `next_` is an index of the vector.
abbrev pub Inside : ThreadPool → Type 0
Inside p = (length p.loops ≡ 0) ⊎ (p.next < length p.loops)

-- `n` calls of `getNextLoop`.
abbrev pub next_loops : ℕ → ThreadPool → Option (List ℕ × ThreadPool)
next_loops zero p = some ([], p)
next_loops (suc n) p = do
  (loop, q) ← get_next_loop p
  (loops, r) ← next_loops n q
  some (loop ∷ loops, r)

drop-get :
    {A : Type 0} (xs : List A) (i : ℕ)
    → i < length xs
    → (x : A) × (get_elem? xs i ≡ some x) × (drop i xs ≡ x ∷ drop (suc i) xs)
drop-get [] i h = absurd (omega arith)
drop-get (x ∷ xs) zero h = (x, refl, refl)
drop-get (x ∷ xs) (suc i) h = drop-get xs i (omega arith)

-- The pool after a call that took the loop at `next_`.
abbrev advanced : ThreadPool → ThreadPool
advanced p = record p { next = if leb (length p.loops) (p.next + 1) then 0 else p.next + 1 }

one_loop :
    (p : ThreadPool)
    → p.next < length p.loops
    → (x : ℕ) × (drop p.next p.loops ≡ x ∷ drop (suc p.next) p.loops)
      × (get_next_loop p ≡ some (x, advanced p))
unfolding get_next_loop
one_loop p h =
    let (x, e, d) = drop-get p.loops p.next h in
    let some_loops : (length p.loops == 0) ≡ false = ground arith in (x, d, rw (some_loops, e) refl)

-- The pool hands out a loop and its index stays inside.
pub get_next_loop-Inside :
    (p : ThreadPool)
    → Inside p
    → (x : ℕ) × (q : ThreadPool) × (get_next_loop p ≡ some (x, q)) × Inside q
unfolding get_next_loop
get_next_loop-Inside p (inl e) = (p.base_loop, p, rw e refl, inl e)
get_next_loop-Inside p (inr h) =
    let (x, d, e) = one_loop p h in (x, advanced p, e, inr (ground arith))

-- The pool with its index at `i`.
abbrev at_index : ThreadPool → ℕ → ThreadPool
at_index p i = record p { next = i }

advanced-inside :
    (p : ThreadPool) → suc p.next < length p.loops → advanced p ≡ at_index p (suc p.next)
advanced-inside p h = ap (at_index p) (ground arith)

advanced-end : (p : ThreadPool) → suc p.next ≡ length p.loops → advanced p ≡ at_index p 0
advanced-end p h = ap (at_index p) (ground arith)

-- What `k` calls give that stay short of the end of the vector.
short_of_end :
    (k : ℕ) (p : ThreadPool)
    → p.next + k < length p.loops
    → next_loops k p ≡ some (take k (drop p.next p.loops), at_index p (p.next + k))
short_of_end zero p h = ap (λ n. some ([], at_index p n)) (omega arith)
short_of_end (suc k) p h =
    let (x, d, e) = one_loop p (omega arith) in
    let rest = short_of_end k (at_index p (suc p.next)) (omega arith) in
    let end : suc p.next + k ≡ p.next + suc k = omega arith in
    rw (e, advanced-inside p (omega arith), rest, d, end) refl

-- What calls give that pass the end.
past_end :
    (k n m : ℕ) (p q : ThreadPool) (ys : List ℕ)
    → p.next + suc k ≡ length p.loops
    → m ≡ k + n
    → next_loops n (at_index p 0) ≡ some (ys, q)
    → next_loops (suc m) p ≡ some (drop p.next p.loops ++ ys, q)
past_end zero n m p q ys h e more =
    let (x, d, one) = one_loop p (omega arith) in
    let same : m ≡ n = omega arith in
    rw
      (
        one,
        advanced-end p (omega arith),
        same,
        more,
        d,
        drop_all (suc p.next) p.loops (omega arith),
      )
      refl
past_end (suc k) n zero p q ys h e more = absurd (omega arith)
past_end (suc k) n (suc m) p q ys h e more =
    let (x, d, one) = one_loop p (omega arith) in
    let rest = past_end k n m (at_index p (suc p.next)) q ys (omega arith) (omega arith) more in
    rw (one, advanced-inside p (omega arith), rest, d) refl

-- While `next_` is an index of the vector, as many calls of `getNextLoop` as there are loops hand out every loop
-- once, in the order of the vector from `next_` on and round its end, and leave the pool as it was.
pub next_loops-rotation :
    (p : ThreadPool)
    → p.next < length p.loops
    → next_loops (length p.loops) p ≡ some (drop p.next p.loops ++ take p.next p.loops, p)
next_loops-rotation p h =
    let left = length p.loops - (p.next + 1) in
    let m = left + p.next in
    let all : length p.loops ≡ suc m = omega arith in
    let same : 0 + p.next ≡ p.next = omega arith in
    let first : next_loops p.next (at_index p 0) ≡ some (take p.next p.loops, p) =
      short_of_end p.next (at_index p 0) (omega arith)
      ∙ ap (λ n. some (take p.next p.loops, at_index p n)) same in
    ap (λ n. next_loops n p) all
    ∙ past_end left p.next m p p (take p.next p.loops) (omega arith) refl first

-- The pool once thread `i` is started.
abbrev with_thread : (ℕ → ℕ) → ThreadPool → ℕ → ThreadPool
with_thread f p i = record p {
  threads = p.threads ++ (p.name ++ decimal i) ∷ [];
  loops = p.loops ++ f i ∷ [];
}

-- What `n` more threads add to a pool.
abbrev Started : (ℕ → ℕ) → ThreadPool → ℕ → ℕ → ThreadPool → Type 0
Started f p i n q =
    (q.loops ≡ p.loops ++ thread_loops f i n) × (q.next ≡ p.next) × (q.base_loop ≡ p.base_loop)

start_threads-Started :
    (f : ℕ → ℕ) (p : ThreadPool) (i n : ℕ) → Started f p i n (start_threads f p i n)
unfolding start_threads
start_threads-Started f p i zero = (rw append-nil, refl, refl)
start_threads-Started f p i (suc n) =
    let s = start_threads-Started f (with_thread f p i) (i + 1) n in
    (s.0 ∙ append_assoc p.loops (f i ∷ []) (thread_loops f (i + 1) n), s.1, s.2)

length-thread_loops : (f : ℕ → ℕ) (i n : ℕ) → length (thread_loops f i n) ≡ n
length-thread_loops f i zero = refl
length-thread_loops f i (suc n) = ap suc (length-thread_loops f (i + 1) n)

-- A new pool that is given `n` threads and started has one loop for each thread, in order, and its index at the first; with no threads
-- it hands out the base loop for ever, and the list of all loops is the base loop alone. The initial callback runs on every loop of the list.
pub start_lem :
    (start_loop : ℕ → ℕ) (base_loop : ℕ) (name : Text) (n : ℕ)
    → let (p, called) = start start_loop true (set_thread_num (new_thread_pool base_loop name) n) in
      (p.loops ≡ thread_loops start_loop 0 n)
      × (length p.loops ≡ n)
      × (p.next ≡ 0)
      × (called ≡ get_all_loops p)
      × (n ≡ 0 → get_next_loop p ≡ some (base_loop, p))
unfolding start set_thread_num new_thread_pool get_all_loops get_next_loop
start_lem f b name n =
    let p = record (new_thread_pool b name) { started = true; num_threads = n } in
    let s = start_threads-Started f p 0 n in
    let len = length-thread_loops f 0 n in
    (s.0, ap length s.0 ∙ len, s.1, ground (arith, s, len), λ e. ground (arith, s, len))
