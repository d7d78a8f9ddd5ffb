-- ===== src/Muduo/EventLoop/Creation.antt =====
-- project/MyMuduo/EventLoop.cc and DefaultPoller.cc: the constructor and the destructor of a loop, with its poller, its
-- eventfd and the channel of the eventfd. `t_loopInThisThread` of the thread is an argument.
use alexproject.Common.{ℕ, ◌≡◌, refl, true, false, Option, none, some}
use alexproject.Common.Decimal.{Text}
use alexproject.Muduo.Channel.{Channel, k_new, k_read_event, new_channel, with_reading}
use alexproject.Muduo.Poller.Kernel.{Epoll}
use alexproject.Muduo.Poller.{
  Poller, Outcome, ok, fatal, new_poller, install, enable_reading, retire, has_channel, ◌>>=◌,
}
use alexproject.Muduo.Poller.Invariant.{Inv}
use alexproject.Muduo.Poller.Lifecycle.{install-watched, retire-Retired, new_poller-Inv}

-- `eventfd` failed: the error is logged, and the kernel then refuses the descriptor -1.
abbrev pub wakeup_channel_of : ℕ → Channel
wakeup_channel_of fd = record (new_channel fd) { read_callback = true }

module _ (K : Epoll) where
  abbrev watch_wakeup : Option ℕ → ℕ → Poller K → Outcome (Poller K)
  watch_wakeup none c p = fatal
  watch_wakeup (some fd) c p = enable_reading K (install K p c (wakeup_channel_of fd)) c

  -- `newDefaultPoller` on the value of MUDUO_USE_POLL; none is a null pointer.
  unfoldable pub new_default_poller : Option Text → (ℕ → Channel) → Option (Poller K)
  unfolding new_poller
  new_default_poller (some value) chan = none
  new_default_poller none chan = some (new_poller K chan)

  -- The process ends at a call through a null pointer.
  abbrev watch_on : Option ℕ → ℕ → Option (Poller K) → Outcome (Poller K)
  watch_on eventfd c none = fatal
  watch_on eventfd c (some p) = watch_wakeup eventfd c p

  -- The thread's loop afterwards, and the poller; LOG_FATAL where the thread has a loop.
  unfoldable pub create_loop :
      Option Text → Option ℕ → ℕ → Option ℕ → ℕ → (ℕ → Channel) → Outcome (Option ℕ × Poller K)
  unfolding new_default_poller
  create_loop use_poll (some other) this eventfd c chan = fatal
  create_loop use_poll none this eventfd c chan = do
    q ← watch_on eventfd c (new_default_poller use_poll chan)
    ok (some this, q)

  unfoldable pub destroy_loop : ℕ → Poller K → Outcome (Option ℕ × Poller K)
  destroy_loop c p = do q ← retire K p c; ok (none, q)

  -- In a thread without a loop, with an eventfd and without MUDUO_USE_POLL, a loop is made: the thread's loop is this one, so that another is refused, and
  -- its poller has the channel of the eventfd, which asks for input; with that variable the process ends. The destructor takes the channel out
  -- of the poller and leaves the thread without a loop, and neither fails.
  pub event_loop_life :
      (this other fd c : ℕ) (chan : ℕ → Channel)
      → ((d : ℕ) → (chan d).index ≡ k_new)
      → (q r : Poller K) × (create_loop none none this (some fd) c chan ≡ ok (some this, q))
        × (create_loop none (some this) other (some fd) c chan ≡ fatal)
        × ((value : Text) → create_loop (some value) none this (some fd) c chan ≡ fatal)
        × Inv K q
        × (has_channel K q c ≡ true)
        × ((q.chan c).events ≡ k_read_event)
        × (destroy_loop c q ≡ ok (none, r))
        × (has_channel K r c ≡ false)
        × Inv K r
  unfolding create_loop destroy_loop with_reading new_channel
  event_loop_life this other fd c chan fresh =
      let ch = wakeup_channel_of fd in
      let (q, e, d, known) =
        install-watched K (new_poller K chan) c ch (new_poller-Inv K chan fresh) (fresh c) refl
          refl in
      let (r, f, g) = retire-Retired K q c d.inv known in
      (q, r, rw e refl, refl, λ value. refl, d.inv, known, d.asks, rw f refl, g.gone, g.inv)
