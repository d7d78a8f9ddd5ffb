-- ===== src/Muduo/EventLoop/Order.antt =====
-- Callbacks run in the order in which they were queued, each once.
use alexproject.Common.Reach.{Reach, reach_keeps}
use alexproject.Common.{
  ℕ, ◌≡◌, ◌∙◌, refl, Bool, true, false, ◌⊎◌, inl, inr, ◌<◌, List, [], ◌∷◌, ◌++◌, arith,
  append_assoc, append-nil,
}
use alexproject.Muduo.EventLoop.{
  Phase, running, EventLoop, wakeup, handle_read, push_functor, queue_in_loop, set_quit, queue_all,
  enter_loop, test_quit, begin_functors, swap_functors, end_functors, do_pending_functors,
  run_functors,
}
use alexproject.Muduo.EventLoop.Steps.{
  World, Step, enter, early_queues, early_quits, test, poll_returns, read_wakeup, handler_queues,
  own_quit, begin, swap, run_functor, finish, other_pushes, other_quits, other_wakes, new_world,
}
use alexproject.Muduo.EventLoop.Wakeup.{is_calling, queue_all-Queued}

-- Whether `doPendingFunctors` is running what it has swapped out.
abbrev is_running : Phase → Bool
is_running running = true
is_running _ = false

module _ (F : Type 0) where
  pub record Ordered (w : World F) : Type 0 where
    pub calling : w.loop.calling_pending_functors ≡ is_calling w.loop.phase
    pub swapped : is_running w.loop.phase ≡ false → w.loop.running_functors ≡ []
    pub in_order : w.queued ≡ w.executed ++ (w.loop.running_functors ++ w.loop.pending_functors)

  regroup : (a b c d : List F) → (a ++ (b ++ c)) ++ d ≡ a ++ (b ++ (c ++ d))
  regroup a b c d = simp append_assoc

  Step-Ordered : {w t : World F} → Step F w t → Ordered w → Ordered t
  unfolding enter_loop test_quit handle_read queue_in_loop set_quit begin_functors swap_functors
      end_functors push_functor wakeup
  Step-Ordered (enter p) v = ground arith
  Step-Ordered {w} (early_queues cb p) v =
      ground (arith, regroup w.executed w.loop.running_functors w.loop.pending_functors (cb ∷ []))
  Step-Ordered (early_quits p) v = ground arith
  Step-Ordered (test p) v = ground arith
  Step-Ordered (poll_returns p) v = ground arith
  Step-Ordered (read_wakeup p c) v = ground arith
  Step-Ordered {w} (handler_queues cb p) v =
      ground (arith, regroup w.executed w.loop.running_functors w.loop.pending_functors (cb ∷ []))
  Step-Ordered (own_quit p) v = ground arith
  Step-Ordered (begin p) v = ground arith
  Step-Ordered {w} (swap p) v = ground (arith, append-nil w.loop.pending_functors)
  Step-Ordered {w} (run_functor cb rest more p e) v = ground (
    arith,
    queue_all-Queued F (record (w.loop) { running_functors = rest }) more (ground arith),
    regroup w.executed (cb ∷ rest) w.loop.pending_functors more,
    append_assoc w.executed (cb ∷ []) (rest ++ (w.loop.pending_functors ++ more)),
  )
  Step-Ordered (finish p e) v = ground arith
  Step-Ordered {w} (other_pushes cb) v =
      ground (arith, regroup w.executed w.loop.running_functors w.loop.pending_functors (cb ∷ []))
  Step-Ordered other_quits v = ground arith
  Step-Ordered (other_wakes h) v = ground arith

  Reach-Ordered : {w : World F} → Reach (Step F) (new_world F) w → Ordered w
  unfolding new_world
  Reach-Ordered r = reach_keeps Ordered (λ b c st v. Step-Ordered st v) r (ground arith)

  -- However the threads interleave, the callbacks that have run, then those swapped out, then those still
  -- pending are the callbacks that were queued, in the order in which they were queued: none is
  -- lost, doubled or overtaken.
  pub queued_in_order :
      {w : World F}
      → Reach (Step F) (new_world F) w
      → w.queued ≡ w.executed ++ (w.loop.running_functors ++ w.loop.pending_functors)
  queued_in_order r = (Reach-Ordered r).in_order

  -- What the callbacks of a list queue, one after the other.
  abbrev pub queued_by : (F → List F) → List F → List F
  queued_by queues [] = []
  queued_by queues (cb ∷ cbs) = queues cb ++ queued_by queues cbs

  record Ran (l : EventLoop F) (more : List F) (l' : EventLoop F) : Type 0 where
    appended : l'.pending_functors ≡ l.pending_functors ++ more
    awake : 0 < l.wakeup_count → 0 < l'.wakeup_count
    woken : (more ≡ []) ⊎ (0 < l'.wakeup_count)

  run_functors-Ran :
      (queues : F → List F) (l : EventLoop F) (cbs : List F)
      → l.calling_pending_functors ≡ true
      → Ran l (queued_by queues cbs) (run_functors F queues l cbs)
  unfolding run_functors
  run_functors-Ran queues l [] c = record {
    appended = rw append-nil;
    awake = λ h. h;
    woken = inl refl;
  }
  run_functors-Ran queues l (cb ∷ cbs) c =
      let q = queue_all-Queued F (record l { running_functors = cbs }) (queues cb) c in
      let r =
        run_functors-Ran queues (queue_all F (record l { running_functors = cbs }) (queues cb)) cbs
          (q.same_calling ∙ c) in
      record {
        appended =
            ground
              (arith, r, q, append_assoc l.pending_functors (queues cb) (queued_by queues cbs));
        awake = λ h. r.awake (q.awake h);
        woken = woken_by (queues cb) (queued_by queues cbs) q.woken r.awake r.woken;
      }
    where
      woken_by :
          {n m : ℕ} (a b : List F)
          → ((a ≡ []) ⊎ (0 < n))
          → (0 < n → 0 < m)
          → ((b ≡ []) ⊎ (0 < m))
          → ((a ++ b ≡ []) ⊎ (0 < m))
      woken_by a b (inl e) up (inl e') = inl (rw (e, e'))
      woken_by a b (inl e) up (inr h) = inr h
      woken_by a b (inr h) up _ = inr (up h)

  -- One call of `doPendingFunctors` with no other thread in between leaves just what the callbacks that were
  -- pending queue, in order; they run once and what they queue waits for the next round, for which
  -- the eventfd is readable.
  pub do_pending_functors_lem :
      (queues : F → List F) (l : EventLoop F)
      → let l' = do_pending_functors F queues l in
        (l'.pending_functors ≡ queued_by queues l.pending_functors)
        × ((l'.pending_functors ≡ []) ⊎ (0 < l'.wakeup_count))
        × (l'.calling_pending_functors ≡ false)
  unfolding do_pending_functors
  do_pending_functors_lem queues l =
      let r =
        run_functors-Ran queues (swap_functors F (begin_functors F l)) l.pending_functors refl in
      (r.appended, ground (arith, r), refl)
