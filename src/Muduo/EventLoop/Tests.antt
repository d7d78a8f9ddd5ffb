-- ===== src/Muduo/EventLoop/Tests.antt =====
-- Tests of the loop.
use alexproject.Common.Reach.{Reach, here, next}
use alexproject.Common.{
  ℕ, ◌<◌, ◌≡◌, ◌⊎◌, inl, inr, refl, none, some, Bool, true, false, List, [], ◌∷◌, ◌++◌, ◌==◌,
  if◌then◌else◌, arith,
}
use alexproject.Muduo.EventLoop.{
  polling, EventLoop, new_event_loop, do_pending_functors, run_in_loop, quit, enter_loop, test_quit,
  push_functor, queue_in_loop,
}
use alexproject.Muduo.EventLoop.Steps.{
  World, Step, enter, early_queues, test, other_pushes, new_world,
}
use alexproject.Common.Decimal.{Text}
use alexproject.Muduo.Channel.{Channel, k_read_event, new_channel}
use alexproject.Muduo.Poller.{Poller, ok, fatal, has_channel}
use alexproject.Muduo.Poller.Invariant.{Inv}
use alexproject.Muduo.Poller.Table.{table}
use alexproject.Muduo.EventLoop.Creation.{create_loop, destroy_loop, event_loop_life}
use alexproject.Muduo.EventLoop.Wakeup.{no_lost_wakeup, Wakes}
use alexproject.Muduo.EventLoop.Order.{queued_in_order, do_pending_functors_lem}

-- A callback is a number, and another thread queues number 5 while the loop waits in `poll`.
abbrev waiting : World ℕ
waiting = record {
  loop = record {
    phase = polling;
    looping = true;
    quit = false;
    calling_pending_functors = false;
    pending_functors = 5 ∷ [];
    running_functors = [];
    wakeup_count = 0;
  };
  waking = 1;
  queued = 5 ∷ [];
  executed = [];
  early = [];
}

waiting-Reach : Reach (Step ℕ) (new_world ℕ) waiting
unfolding new_world enter_loop test_quit push_functor
waiting-Reach = next (next (next here (enter refl)) (test refl)) (other_pushes 5)

no_lost_wakeup_example :
    ((◌≡◌ {A = List ℕ} (5 ∷ []) []) ⊎ Wakes ℕ waiting)
    × (◌≡◌ {A = Bool} false true → Wakes ℕ waiting)
no_lost_wakeup_example = no_lost_wakeup ℕ waiting-Reach refl

-- The loop's thread has queued a callback before `loop()`, and the loop waits in `poll`.
abbrev overlooked : World ℕ
overlooked = record {
  loop = waiting.loop;
  waking = 0;
  queued = 5 ∷ [];
  executed = [];
  early = 5 ∷ [];
}

overlooked-Reach : Reach (Step ℕ) (new_world ℕ) overlooked
unfolding new_world enter_loop test_quit queue_in_loop
overlooked-Reach = next (next (next here (early_queues 5 refl)) (enter refl)) (test refl)

nothing-Wakes : ¬ Wakes ℕ overlooked
nothing-Wakes (inl h) = omega (arith, h)
nothing-Wakes (inr h) = omega (arith, h)

queued_in_order_example : waiting.queued ≡ [] ++ ([] ++ 5 ∷ [])
queued_in_order_example = queued_in_order ℕ waiting-Reach

-- Callback 1 queues 7 and 8, and the others nothing.
abbrev queues : ℕ → List ℕ
queues n = if n == 1 then 7 ∷ 8 ∷ [] else []

abbrev filled : EventLoop ℕ
filled = record (waiting.loop) { pending_functors = 1 ∷ 2 ∷ [] }

requeued : (do_pending_functors ℕ queues filled).pending_functors ≡ 7 ∷ 8 ∷ []
unfolding do_pending_functors
requeued = refl

do_pending_functors_lem_example :
    ((do_pending_functors ℕ queues filled).pending_functors ≡ 7 ∷ 8 ∷ [])
    × (((do_pending_functors ℕ queues filled).pending_functors ≡ [])
        ⊎ (0 < (do_pending_functors ℕ queues filled).wakeup_count))
    × ((do_pending_functors ℕ queues filled).calling_pending_functors ≡ false)
do_pending_functors_lem_example = do_pending_functors_lem ℕ queues filled

-- A `quit` that comes before `loop` is forgotten.
early_quit : (test_quit ℕ (enter_loop ℕ (quit ℕ false (new_event_loop ℕ)))).phase ≡ polling
unfolding test_quit enter_loop quit new_event_loop
early_quit = refl

other_thread_runs_nothing : (run_in_loop ℕ false (new_event_loop ℕ) 3).0 ≡ []
unfolding run_in_loop
other_thread_runs_nothing = refl

abbrev unused : ℕ → Channel
unfolding new_channel
unused c = new_channel 0

event_loop_life_example :
    (q r : Poller table) × (create_loop table none none 40 (some 9) 2 unused ≡ ok (some 40, q))
    × (create_loop table none (some 40) 41 (some 9) 2 unused ≡ fatal)
    × ((value : Text) → create_loop table (some value) none 40 (some 9) 2 unused ≡ fatal)
    × Inv table q
    × (has_channel table q 2 ≡ true)
    × ((q.chan 2).events ≡ k_read_event)
    × (destroy_loop table 2 q ≡ ok (none, r))
    × (has_channel table r 2 ≡ false)
    × Inv table r
unfolding new_channel
event_loop_life_example = event_loop_life table 40 41 9 2 unused (λ d. refl)
