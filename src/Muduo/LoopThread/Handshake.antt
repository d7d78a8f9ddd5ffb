-- ===== src/Muduo/LoopThread/Handshake.antt =====
-- The caller of `startLoop` gets the loop of the thread and does not wait for ever.
use alexproject.Common.Reach.{Reach, here, next, reach_keeps, reach_same, reach_before}
use alexproject.Common.{ℕ, ◌≡◌, ◌⊎◌, inl, inr, refl, ap, ◌∙◌, Bool, true, false, none, some, arith}
use alexproject.Muduo.LoopThread.{
  Caller, before_start, at_test, waiting, returned, Runner, unborn, initialising, publishing,
  looping, clearing, LoopThread, new_loop_thread, start_thread, test_loop, wake, end_callback,
  publish, leave_loop, clear_loop,
}

-- The interleavings of the two threads. A wakeup may be spurious. It is assumed that the loop is told to quit only by
-- someone who got its address from the caller, and not from the callback that the thread runs at its start: so it ends
-- only after the caller has the address.
pub data Step (t : LoopThread) : LoopThread → Type 0 where
  starts : t.caller ≡ before_start → Step t (start_thread t)
  tests : t.caller ≡ at_test → Step t (test_loop t)
  wakes : t.caller ≡ waiting → Step t (wake t)
  ends_callback : t.runner ≡ initialising → Step t (end_callback t)
  publishes : t.runner ≡ publishing → Step t (publish t)
  leaves : {a : ℕ} → t.runner ≡ looping → t.caller ≡ returned a → Step t (leave_loop t)
  clears : t.runner ≡ clearing → Step t (clear_loop t)

abbrev pub is_published : Runner → Bool
is_published looping = true
is_published clearing = true
is_published _ = false

abbrev pub is_early : Runner → Bool
is_early initialising = true
is_early publishing = true
is_early _ = false

abbrev pub has_returned : Caller → Bool
has_returned (returned a) = true
has_returned _ = false

pub record Inv (t : LoopThread) : Type 0 where
  pub shown : is_published t.runner ≡ true → t.loop ≡ some t.address
  pub hidden : is_published t.runner ≡ false → t.loop ≡ none
  pub own : {a : ℕ} → t.caller ≡ returned a → a ≡ t.address
  pub idle : t.caller ≡ before_start → t.runner ≡ unborn
  pub unstarted : t.runner ≡ unborn → t.caller ≡ before_start
  pub not_lost :
      t.caller ≡ waiting → (is_early t.runner ≡ true) ⊎ ((t.runner ≡ looping) × (t.woken ≡ true))
  pub late : t.caller ≡ at_test → (is_early t.runner ≡ true) ⊎ (t.runner ≡ looping)

Step-Inv : {t u : LoopThread} → Step t u → Inv t → Inv u
unfolding start_thread test_loop wake end_callback publish leave_loop clear_loop
Step-Inv (starts p) v = ground arith
Step-Inv (tests p) v = ground arith
Step-Inv (wakes p) v = ground arith
Step-Inv (ends_callback p) v = ground arith
Step-Inv (publishes p) v = ground arith
Step-Inv (leaves p q) v = ground arith
Step-Inv (clears p) v = ground arith

fresh-Inv : (a : ℕ) → Inv (new_loop_thread a)
unfolding new_loop_thread
fresh-Inv a = ground arith

Reach-Inv : {t u : LoopThread} → Reach Step t u → Inv t → Inv u
Reach-Inv r v = reach_keeps Inv (λ b c s v. Step-Inv s v) r v

Step-address : {t u : LoopThread} → Step t u → u.address ≡ t.address
unfolding start_thread test_loop wake end_callback publish leave_loop clear_loop
Step-address (starts p) = refl
Step-address (tests p) = ground arith
Step-address (wakes p) = refl
Step-address (ends_callback p) = refl
Step-address (publishes p) = refl
Step-address (leaves p q) = refl
Step-address (clears p) = refl

Reach-address : {t u : LoopThread} → Reach Step t u → u.address ≡ t.address
Reach-address r = reach_same (λ (t : LoopThread). t.address) (λ b c s. Step-address s) r

-- The caller can come back with the thread's address.
abbrev Returns : LoopThread → Type 0
Returns t = (u : LoopThread) × Reach Step t u × (u.caller ≡ returned t.address)

prefix : {t u : LoopThread} → Step t u → Returns u → Returns t
prefix s (w, r, e) = (w, reach_before s r, e ∙ ap returned (Step-address s))

sees : (t : LoopThread) → t.caller ≡ at_test → t.loop ≡ some t.address → Returns t
unfolding test_loop
sees t c l = (test_loop t, next here (tests c), rw (test_loop, l) refl)

at_publishing : (t : LoopThread) → t.caller ≡ at_test → t.runner ≡ publishing → Returns t
unfolding publish
at_publishing t c r = prefix (publishes r) (sees (publish t) c refl)

at_callback : (t : LoopThread) → t.caller ≡ at_test → t.runner ≡ initialising → Returns t
unfolding end_callback
at_callback t c r = prefix (ends_callback r) (at_publishing (end_callback t) c refl)

early_runner : (r : Runner) → is_early r ≡ true → (r ≡ initialising) ⊎ (r ≡ publishing)
early_runner r h = ground arith

at_test-Returns : (t : LoopThread) → Inv t → t.caller ≡ at_test → Returns t
at_test-Returns t v c = elim (v.late c) [
  | inl early ↦ elim (early_runner t.runner early) [
    | inl first ↦ at_callback t c first
    | inr second ↦ at_publishing t c second
  ]
  | inr out ↦ sees t c (v.shown (ap is_published out))
]

by_caller : (t : LoopThread) (c : Caller) → Inv t → t.caller ≡ c → Returns t
unfolding start_thread wake
by_caller t before_start v c =
    prefix (starts c) (at_test-Returns (start_thread t) (Step-Inv (starts c) v) refl)
by_caller t at_test v c = at_test-Returns t v c
by_caller t waiting v c = prefix (wakes c) (at_test-Returns (wake t) (Step-Inv (wakes c) v) refl)
by_caller t (returned a) v c = (t, here, c ∙ ap returned (v.own c))

-- However the caller of `startLoop` and its thread interleave: what the caller comes back with is the loop of the thread; while it
-- waits, either the thread has not shown its loop yet, or the loop runs and the caller has been woken, so
-- no notification is lost; and from every state it can still come back.
pub start_loop_lem :
    (a : ℕ) {t : LoopThread}
    → Reach Step (new_loop_thread a) t
    → ((b : ℕ) → t.caller ≡ returned b → b ≡ a)
      × (t.caller ≡ waiting
          → (is_early t.runner ≡ true) ⊎ ((t.runner ≡ looping) × (t.woken ≡ true)))
      × ((u : LoopThread) × Reach Step t u × (u.caller ≡ returned a))
unfolding new_loop_thread
start_loop_lem a {t} r =
    let v = Reach-Inv r (fresh-Inv a) in
    let same : t.address ≡ a = Reach-address r in
    let (u, steps, e) = by_caller t t.caller v refl in
    (λ b c. v.own c ∙ same, v.not_lost, (u, steps, e ∙ ap returned same))
