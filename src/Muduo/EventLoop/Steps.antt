-- ===== src/Muduo/EventLoop/Steps.antt =====
-- The interleavings of the loop's thread with other threads, as a step relation.
use alexproject.Common.{ℕ, ◌+◌, ◌-◌, ◌<◌, ◌≡◌, ◌⊎◌, true, List, [], ◌∷◌, ◌++◌}
use alexproject.Muduo.EventLoop.{
  outside, testing, polling, dispatching, swapping, running, EventLoop, new_event_loop, wakeup,
  handle_read, push_functor, queue_in_loop, set_quit, queue_all, enter_loop, test_quit,
  begin_functors, swap_functors, end_functors,
}

module _ (F : Type 0) where
  -- The loop; how many other threads stand between their push or their write of `quit_` and their `wakeup`; the
  -- callbacks queued and run so far; and of those queued the ones that the loop's thread queued outside `loop()` since
  -- the last swap, for which `queueInLoop` does not call `wakeup`.
  pub record World : Type 0 where
    pub loop : EventLoop F
    pub waking : ℕ
    pub queued : List F
    pub executed : List F
    pub early : List F

  unfoldable pub new_world : World
  unfolding new_event_loop
  new_world = record { loop = new_event_loop F; waking = 0; queued = []; executed = []; early = [] }

  -- The loop's own thread queues and quits from a channel's callback, from a queued one, and outside `loop()`: before
  -- it, as the callback of EventLoopThread may, or after it.
  pub data Step (w : World) : World → Type 0 where
    enter : w.loop.phase ≡ outside → Step w (record w { loop = enter_loop F w.loop })
    early_queues :
        (cb : F)
        → w.loop.phase ≡ outside
        → Step w (record w {
          loop = queue_in_loop F true w.loop cb;
          queued = w.queued ++ cb ∷ [];
          early = w.early ++ cb ∷ [];
        })
    early_quits : w.loop.phase ≡ outside → Step w (record w { loop = set_quit F w.loop })
    test : w.loop.phase ≡ testing → Step w (record w { loop = test_quit F w.loop })
    -- `poll` returns: for an event or at its time-out.
    poll_returns :
        w.loop.phase ≡ polling
        → Step w (record w { loop = record (w.loop) { phase = dispatching } })
    read_wakeup :
        w.loop.phase ≡ dispatching
        → 0 < w.loop.wakeup_count
        → Step w (record w { loop = handle_read F w.loop })
    handler_queues :
        (cb : F)
        → w.loop.phase ≡ dispatching
        → Step w (record w { loop = queue_in_loop F true w.loop cb; queued = w.queued ++ cb ∷ [] })
    own_quit :
        (w.loop.phase ≡ dispatching) ⊎ (w.loop.phase ≡ running)
        → Step w (record w { loop = set_quit F w.loop })
    begin : w.loop.phase ≡ dispatching → Step w (record w { loop = begin_functors F w.loop })
    swap : w.loop.phase ≡ swapping → Step w (record w { loop = swap_functors F w.loop; early = [] })
    -- The next callback runs, and queues `more`.
    run_functor :
        (cb : F) (rest more : List F)
        → w.loop.phase ≡ running
        → w.loop.running_functors ≡ cb ∷ rest
        → Step w (record w {
          loop = queue_all F (record (w.loop) { running_functors = rest }) more;
          queued = w.queued ++ more;
          executed = w.executed ++ cb ∷ [];
        })
    finish :
        w.loop.phase ≡ running
        → w.loop.running_functors ≡ []
        → Step w (record w { loop = end_functors F w.loop })
    -- Another thread in `queueInLoop`, in `quit`, and in `wakeup` after either.
    other_pushes :
        (cb : F)
        → Step w (record w {
          loop = push_functor F w.loop cb;
          waking = w.waking + 1;
          queued = w.queued ++ cb ∷ [];
        })
    other_quits : Step w (record w { loop = set_quit F w.loop; waking = w.waking + 1 })
    other_wakes : 0 < w.waking → Step w (record w { loop = wakeup F w.loop; waking = w.waking - 1 })
