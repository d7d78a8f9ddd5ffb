-- ===== src/Muduo/Poller/Wait.antt =====
-- `poll`: which channels it reports, and what it writes into them.
use alexproject.Common.{
  ℕ, ◌≤◌, ◌<◌, ◌≡◌, ◌≢◌, ◌*◌, refl, ◌∙◌, List, [], ◌∷◌, ◌++◌, map, some, none, arith, ◌==◌, length,
  append_assoc, append-nil, if◌then◌else◌,
}
use alexproject.Muduo.Channel.{Channel}
use alexproject.Muduo.Poller.Kernel.{Epoll}
use alexproject.Muduo.Poller.{Poller, Ready, fill_active_channels, poll, update_at}

module _ (K : Epoll) where
  -- The channels that the kernel named, in its order.
  abbrev pub ptrs : List (Ready K) → List ℕ
  ptrs = map λ e. e.ptr

  -- The events reported last for a channel, or the ones it had.
  abbrev pub reported : List (Ready K) → ℕ → ℕ → ℕ
  reported [] c old = old
  reported (e ∷ es) c old = reported es c (if e.ptr == c then e.events else old)

  active-fill :
      (chan : ℕ → Channel) (es : List (Ready K)) (active : List ℕ)
      → (fill_active_channels K chan es active).1 ≡ active ++ ptrs es
  unfolding fill_active_channels
  active-fill chan [] active = rw append-nil
  active-fill chan (e ∷ es) active =
      active-fill (update_at chan e.ptr (record (chan e.ptr) { revents = e.events })) es
        (active ++ e.ptr ∷ [])
      ∙ append_assoc active (e.ptr ∷ []) (ptrs es)

  revents-fill :
      (chan : ℕ → Channel) (es : List (Ready K)) (active : List ℕ) (c : ℕ)
      → (fill_active_channels K chan es active).0 c
        ≡ record (chan c) { revents = reported es c (chan c).revents }
  unfolding fill_active_channels
  revents-fill chan [] active c = refl
  revents-fill chan (e ∷ es) active c =
      revents-fill (update_at chan e.ptr (record (chan e.ptr) { revents = e.events })) es
        (active ++ e.ptr ∷ []) c
      ∙ ground arith

  -- What `poll` does with what epoll_wait returned. The channels that the kernel named are added to the
  -- active list in its order; each channel has the events that were reported last for it and is
  -- otherwise as it was; neither the map nor the kernel is touched. The event list doubles exactly when a batch came back that
  -- filled it, and else keeps its size, so that a batch that fits into a list of some size never fills the next one. An error and a timeout change nothing.
  pub poll_lem :
      (p : Poller K) (es : List (Ready K)) (active : List ℕ)
      → let (q, active') = poll K p (some es) active in
        (poll K p none active ≡ (p, active))
        × (active' ≡ active ++ ptrs es)
        × ((c : ℕ) → q.chan c ≡ record (p.chan c) { revents = reported es c (p.chan c).revents })
        × (q.channels ≡ p.channels)
        × (q.kernel ≡ p.kernel)
        × (poll K p (some []) active ≡ (p, active))
        × (0 < length es → length es ≡ p.event_list_size → q.event_list_size ≡ 2 * length es)
        × (length es ≢ p.event_list_size → q.event_list_size ≡ p.event_list_size)
        × (length es ≤ p.event_list_size → 0 < p.event_list_size → length es < q.event_list_size)
  unfolding poll
  poll_lem p [] active = (
    refl,
    rw append-nil,
    λ c. refl,
    refl,
    refl,
    refl,
    λ h k. absurd (omega (arith, h)),
    λ ne. refl,
    λ h k. omega arith,
  )
  poll_lem p (e ∷ es) active = (
    refl,
    active-fill p.chan (e ∷ es) active,
    revents-fill p.chan (e ∷ es) active,
    refl,
    refl,
    refl,
    λ h k. ground arith,
    λ ne. ground arith,
    λ h k. ground arith,
  )
