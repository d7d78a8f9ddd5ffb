-- ===== src/Muduo/EventLoop/Wakeup.antt =====
-- No wakeup is lost.
use alexproject.Common.Reach.{Reach, reach_keeps}
use alexproject.Common.{
  ◌<◌, ◌≡◌, ◌⊎◌, inl, inr, Bool, true, false, List, [], ◌∷◌, ◌++◌, arith, refl, append-nil,
  append_assoc,
}
use alexproject.Muduo.EventLoop.{
  Phase, polling, dispatching, swapping, running, EventLoop, wakeup, handle_read, push_functor,
  queue_in_loop, set_quit, queue_all, enter_loop, test_quit, begin_functors, swap_functors,
  end_functors,
}
use alexproject.Muduo.EventLoop.Steps.{
  World, Step, enter, early_queues, early_quits, test, poll_returns, read_wakeup, handler_queues,
  own_quit, begin, swap, run_functor, finish, other_pushes, other_quits, other_wakes, new_world,
}

-- Whether the loop is in `doPendingFunctors`.
abbrev pub is_calling : Phase → Bool
is_calling swapping = true
is_calling running = true
is_calling _ = false

-- The phases in which a queued callback would be forgotten if nothing woke the loop.
abbrev pub is_exposed : Phase → Bool
is_exposed dispatching = false
is_exposed swapping = false
is_exposed _ = true

module _ (F : Type 0) where
  -- The eventfd is readable, or a thread is about to make it so.
  abbrev pub Wakes : World F → Type 0
  Wakes w = (0 < w.loop.wakeup_count) ⊎ (0 < w.waking)

  pub record Inv (w : World F) : Type 0 where
    pub calling : w.loop.calling_pending_functors ≡ is_calling w.loop.phase
    pub functors_wake :
        is_exposed w.loop.phase ≡ true → (w.loop.pending_functors ≡ w.early) ⊎ Wakes w
    pub quit_wakes : w.loop.phase ≡ polling → (w.loop.quit ≡ false) ⊎ Wakes w

  -- What a callback that runs leaves when it has queued `more`.
  pub record Queued (l : EventLoop F) (more : List F) (l' : EventLoop F) : Type 0 where
    pub same_phase : l'.phase ≡ l.phase
    pub same_quit : l'.quit ≡ l.quit
    pub same_calling : l'.calling_pending_functors ≡ l.calling_pending_functors
    pub same_running : l'.running_functors ≡ l.running_functors
    pub appended : l'.pending_functors ≡ l.pending_functors ++ more
    pub awake : 0 < l.wakeup_count → 0 < l'.wakeup_count
    pub woken : (more ≡ []) ⊎ (0 < l'.wakeup_count)

  pub queue_all-Queued :
      (l : EventLoop F) (more : List F)
      → l.calling_pending_functors ≡ true
      → Queued l more (queue_all F l more)
  unfolding queue_all queue_in_loop
  queue_all-Queued l [] c = record {
    same_phase = refl;
    same_quit = refl;
    same_calling = refl;
    same_running = refl;
    appended = rw append-nil;
    awake = λ h. h;
    woken = inl refl;
  }
  queue_all-Queued l (cb ∷ more) c =
      let q = queue_all-Queued (queue_in_loop F true l cb) more (ground arith) in
      record {
        same_phase = ground (arith, q);
        same_quit = ground (arith, q);
        same_calling = ground (arith, q);
        same_running = ground (arith, q);
        appended = ground (arith, q, append_assoc l.pending_functors (cb ∷ []) more);
        awake = λ h. ground (arith, q);
        woken = inr (ground (arith, q));
      }

  Step-Inv : {w t : World F} → Step F w t → Inv w → Inv t
  unfolding enter_loop test_quit handle_read queue_in_loop set_quit begin_functors swap_functors
      end_functors push_functor wakeup
  Step-Inv (enter p) v = ground arith
  Step-Inv {w} (early_queues cb p) v = ground arith
  Step-Inv (early_quits p) v = ground arith
  Step-Inv (test p) v = ground arith
  Step-Inv (poll_returns p) v = ground arith
  Step-Inv (read_wakeup p c) v = ground arith
  Step-Inv (handler_queues cb p) v = ground arith
  Step-Inv (own_quit p) v = ground arith
  Step-Inv (begin p) v = ground arith
  Step-Inv (swap p) v = ground arith
  Step-Inv {w} (run_functor cb rest more p e) v = ground (
    arith,
    queue_all-Queued (record (w.loop) { running_functors = rest }) more (ground arith),
    append-nil w.loop.pending_functors,
  )
  Step-Inv (finish p e) v = ground arith
  Step-Inv (other_pushes cb) v = ground arith
  Step-Inv other_quits v = ground arith
  Step-Inv (other_wakes h) v = ground arith

  new_world-Inv : Inv (new_world F)
  unfolding new_world
  new_world-Inv = ground arith

  Reach-Inv : {w t : World F} → Inv w → Reach (Step F) w t → Inv t
  Reach-Inv v r = reach_keeps Inv (λ b c st v. Step-Inv st v) r v

  -- However the loop's thread and the others interleave: when the loop waits in `poll` and `quit_` is set, then the eventfd is
  -- readable, or a thread is just about to write to it; and so it is when callbacks are pending, unless each of them
  -- was queued by the loop's own thread outside `loop()` since the last round, in which case all of those are still pending.
  pub no_lost_wakeup :
      {w : World F}
      → Reach (Step F) (new_world F) w
      → w.loop.phase ≡ polling
      → ((w.loop.pending_functors ≡ w.early) ⊎ Wakes w) × (w.loop.quit ≡ true → Wakes w)
  no_lost_wakeup r p =
      let v = Reach-Inv new_world-Inv r in
      (v.functors_wake (ground arith), λ quits. ground (arith, v.quit_wakes p))
