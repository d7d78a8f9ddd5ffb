-- ===== src/Muduo/Thread/Start.antt =====
-- `start` comes back when the thread runs and its id is known.
use alexproject.Common.Reach.{Reach, here, next, reach_keeps, reach_same}
use alexproject.Common.{ℕ, ◌+◌, ◌<◌, ◌≡◌, ◌⊎◌, refl, inl, inr, arith, ◌∙◌}
use alexproject.Muduo.Thread.{
  Starter, before_start, waiting, returned, Worker, unborn, naming, posting, running, Starting,
  new_starting, create, set_tid, post, pass, current_tid,
}

-- The interleavings of the caller and the new thread.
pub data Step (s : Starting) : Starting → Type 0 where
  creates : s.caller ≡ before_start → Step s (create s)
  names : s.runner ≡ naming → Step s (set_tid s)
  posts : s.runner ≡ posting → Step s (post s)
  passes : s.caller ≡ waiting → 0 < s.sem → Step s (pass s)

-- How far a start has come, for each place of the caller.
abbrev Progress : Starter → Worker → ℕ → ℕ → ℕ → Type 0
Progress before_start runner tid sem gettid = (runner ≡ unborn) × (sem ≡ 0)
Progress waiting unborn tid sem gettid = ⊥
Progress waiting naming tid sem gettid = sem ≡ 0
Progress waiting posting tid sem gettid = (sem ≡ 0) × (tid ≡ gettid)
Progress waiting running tid sem gettid = (sem ≡ 1) × (tid ≡ gettid)
Progress returned runner tid sem gettid = (runner ≡ running) × (sem ≡ 0) × (tid ≡ gettid)

abbrev Inv : Starting → Type 0
Inv s = Progress s.caller s.runner s.tid s.sem s.gettid

Step-Inv : {s t : Starting} → Step s t → Inv s → Inv t
unfolding create set_tid post pass current_tid
Step-Inv (creates p) v = ground arith
Step-Inv (names p) v = ground arith
Step-Inv (posts p) v = ground arith
Step-Inv (passes p h) v = ground arith

Step-gettid : {s t : Starting} → Step s t → t.gettid ≡ s.gettid
unfolding create set_tid post pass
Step-gettid (creates p) = refl
Step-gettid (names p) = refl
Step-gettid (posts p) = refl
Step-gettid (passes p h) = refl

Reach-Inv : {s t : Starting} → Reach Step s t → Inv s → Inv t
Reach-Inv r v = reach_keeps Inv (λ b c st v. Step-Inv st v) r v

Reach-gettid : {s t : Starting} → Reach Step s t → t.gettid ≡ s.gettid
Reach-gettid r = reach_same (λ (s : Starting). s.gettid) (λ b c st. Step-gettid st) r

-- How many steps are left until the caller is back.
abbrev left_at : Starter → Worker → ℕ
left_at before_start runner = 4
left_at waiting unborn = 0
left_at waiting naming = 3
left_at waiting posting = 2
left_at waiting running = 1
left_at returned runner = 0

abbrev pub left : Starting → ℕ
left s = left_at s.caller s.runner

abbrev pub steps : {s t : Starting} → Reach Step s t → ℕ
steps here = 0
steps (next r st) = steps r + 1

Step-left : {s t : Starting} → Step s t → Inv s → left t + 1 ≡ left s
unfolding create set_tid post pass
Step-left (creates p) v = ground arith
Step-left (names p) v = ground arith
Step-left (posts p) v = ground arith
Step-left (passes p h) v = ground arith

Reach-left : {s t : Starting} (r : Reach Step s t) → Inv s → left t + steps r ≡ left s
Reach-left here v = omega arith
Reach-left (next r st) v = omega (arith, Reach-left r v, Step-left st (Reach-Inv r v))

-- The caller is back, with the id of a thread that runs.
pub record Started (gettid : ℕ) (s : Starting) : Type 0 where
  pub back : s.caller ≡ returned
  pub runs : s.runner ≡ running
  pub tid : s.tid ≡ gettid

-- Where a start stands, it has come to its end or can go on.
goes_on :
    (gettid : ℕ) (s : Starting) (c : Starter) (r : Worker)
    → s.gettid ≡ gettid
    → s.caller ≡ c
    → s.runner ≡ r
    → Progress c r s.tid s.sem s.gettid
    → Started gettid s ⊎ ((t : Starting) × Step s t)
goes_on g s before_start r same ec er v = inr (create s, creates ec)
goes_on g s waiting unborn same ec er v = absurd v
goes_on g s waiting naming same ec er v = inr (set_tid s, names er)
goes_on g s waiting posting same ec er v = inr (post s, posts er)
goes_on g s waiting running same ec er v = inr (pass s, passes ec (omega arith))
goes_on g s returned r same ec er v = inl (record { back = ec; runs = er ∙ v.0; tid = v.2 ∙ same })

-- However the caller of `start` and the new thread interleave: a start takes four steps and no more, and whenever
-- it cannot go on, `start` has returned, the thread runs its function, and `tid()` is the id that the
-- kernel gave it.
pub start_terminates :
    (gettid : ℕ) {s : Starting} (r : Reach Step (new_starting gettid) s)
    → (left s + steps r ≡ 4) × (Started gettid s ⊎ ((t : Starting) × Step s t))
unfolding new_starting
start_terminates gettid {s} r =
    let v = Reach-Inv r (refl, refl) in
    (Reach-left r (refl, refl), goes_on gettid s s.caller s.runner (Reach-gettid r) refl refl v)
