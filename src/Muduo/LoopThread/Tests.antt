-- ===== src/Muduo/LoopThread/Tests.antt =====
-- Tests of the loop thread.
use alexproject.Common.Reach.{Reach, here, next}
use alexproject.Common.{ℕ, ◌≡◌, ◌⊎◌, refl, true, false, none}
use alexproject.Muduo.LoopThread.{
  waiting, returned, looping, initialising, LoopThread, new_loop_thread, start_thread, test_loop,
}
use alexproject.Muduo.LoopThread.Handshake.{Step, starts, tests, start_loop_lem}

-- The caller is first at the test and waits.
abbrev caller_waits : LoopThread
caller_waits = record {
  loop = none;
  exiting = false;
  caller = waiting;
  runner = initialising;
  woken = false;
  address = 40;
}

caller_waits-Reach : Reach Step (new_loop_thread 40) caller_waits
unfolding new_loop_thread start_thread test_loop
caller_waits-Reach = next (next here (starts refl)) (tests refl)

start_loop_lem_example :
    ((b : ℕ) → caller_waits.caller ≡ returned b → b ≡ 40)
    × (waiting ≡ waiting → (true ≡ true) ⊎ ((initialising ≡ looping) × (caller_waits.woken ≡ true)))
    × ((u : LoopThread) × Reach Step caller_waits u × (u.caller ≡ returned 40))
start_loop_lem_example = start_loop_lem 40 caller_waits-Reach
