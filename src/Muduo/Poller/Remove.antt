-- ===== src/Muduo/Poller/Remove.antt =====
-- `removeChannel` and `hasChannel`.
use alexproject.Common.{
  ℕ, ◌≡◌, ◌≢◌, ap, inl, inr, ◌⊎◌, Option-cases, refl, none, some, ◌==◌, if◌then◌else◌, arith, true,
  false, ◌↔◌,
}
use alexproject.Muduo.Channel.{Channel, Index, k_new, k_added, k_deleted}
use alexproject.Muduo.Poller.Kernel.{Epoll}
use alexproject.Muduo.Poller.{Poller, ok, update_at, remove_channel, has_channel}
use alexproject.Muduo.Poller.Invariant.{Inv, Agrees, Free, registration, Change-Inv}
use alexproject.Muduo.Poller.Calls.{update_del}
use alexproject.Muduo.Poller.Update.{Done, self}

module _ (K : Epoll) where
  -- The state that `removeChannel` leaves, with the kernel `k`.
  abbrev removed : Poller K → ℕ → K.State → Poller K
  removed p c k = record p {
    chan = update_at p.chan c (record (p.chan c) { index = k_new });
    channels = update_at p.channels (p.chan c).fd none;
    kernel = k;
  }

  removed-Done :
      (p : Poller K) (c : ℕ) (k : K.State)
      → Inv K p
      → Free K p c
      → ((fd : ℕ)
          → K.interest k fd ≡ (if (p.chan c).fd == fd then none else K.interest p.kernel fd))
      → Done K p c (p.chan c).events (removed p c k)
  removed-Done p c k v f l =
      let ch : Channel = record (p.chan c) { index = k_new } in
      let at_c : update_at p.chan c ch c ≡ ch = self K p.chan c ch in
      record {
        inv =
            Change-Inv K p (removed p c k) c none none v
              (registration K p c (p.chan c).index refl (v.agrees c) f)
              (record {
                others = λ d ne. ground arith;
                same_fd = ap (λ (h : Channel). h.fd) at_c;
                map_entry = λ fd. refl;
                kernel_entry = l;
                agrees = rw (ap (λ (h : Channel). h.index) at_c) tt;
                entries = inr (refl, refl);
              });
        asks = ap (λ (h : Channel). h.events) at_c;
        kept_fd = ap (λ (h : Channel). h.fd) at_c;
        others = λ d ne. ground arith;
      }

  Removes : Poller K → ℕ → Type 0
  Removes p c =
      (k : K.State) × (remove_channel K p c ≡ ok (removed p c k))
      × ((fd : ℕ)
          → K.interest k fd ≡ (if (p.chan c).fd == fd then none else K.interest p.kernel fd))

  remove_channel-Removes :
      (p : Poller K) (c : ℕ) (i : Index)
      → Inv K p
      → Free K p c
      → (p.chan c).index ≡ i
      → Agrees K p c i
      → Removes p c
  unfolding remove_channel Removes
  remove_channel-Removes p c k_new v f e a =
      (p.kernel, rw (e, remove_channel), λ fd. ground (arith, v.foreign fd, f e))
  remove_channel-Removes p c k_deleted v f e a =
      (p.kernel, rw (e, remove_channel), λ fd. ground (arith, a.1))
  remove_channel-Removes p c k_added v f e a =
      let (k, done, l) =
        update_del K (record p { channels = update_at p.channels (p.chan c).fd none }) c
          (p.chan c).fd (p.chan c).events refl refl {old = ((p.chan c).events, c)} a.1 in
      (k, rw (e, remove_channel) (rw done), l)

  -- While the invariant holds and channel `c` is registered or its descriptor is free, `removeChannel` succeeds;
  -- afterwards the invariant holds, the poller does not have the channel, every descriptor but the channel's is mapped
  -- as before and the channel's is mapped to nothing, the event list has its size, and of all channels only the index of `c` may have changed, which is kNew.
  pub remove_channel-Done :
      (p : Poller K) (c : ℕ)
      → Inv K p
      → Free K p c
      → (q : Poller K) × (remove_channel K p c ≡ ok q)
        × Done K p c (p.chan c).events q
        × (has_channel K q c ≡ false)
        × ((fd : ℕ) → q.channels fd ≡ (if (p.chan c).fd == fd then none else p.channels fd))
        × (q.event_list_size ≡ p.event_list_size)
        × ((d : ℕ) → q.chan d ≡ (if c == d then record (p.chan c) { index = k_new } else p.chan d))
  unfolding Removes has_channel
  remove_channel-Done p c v f =
      let (k, done, l) = remove_channel-Removes p c (p.chan c).index v f refl (v.agrees c) in
      (removed p c k, done, removed-Done p c k v f l, ground arith, λ fd. refl, refl, λ d. refl)

  not_held :
      (p : Poller K) (c : ℕ)
      → Inv K p
      → (p.chan c).index ≡ k_new
      → ((p.channels (p.chan c).fd ≡ none) ⊎ ((d : ℕ) × (p.channels (p.chan c).fd ≡ some d)))
      → has_channel K p c ≡ true
      → ⊥
  unfolding has_channel
  not_held p c v e (inl n) h = ground arith
  not_held p c v e (inr (d, s)) h =
      let same : d ≡ c = ground arith in (v.owned (p.chan c).fd c (rw s (ap some same))).1 e

  has_channel_by :
      (p : Poller K) (c : ℕ) (i : Index)
      → Inv K p
      → (p.chan c).index ≡ i
      → Agrees K p c i
      → (has_channel K p c ≡ true) ↔ (i ≢ k_new)
  unfolding has_channel
  has_channel_by p c k_new v e a =
      (λ h n. not_held p c v e (Option-cases (p.channels (p.chan c).fd)) h, λ n. absurd (n refl))
  has_channel_by p c k_added v e a = (λ h n. ground arith, λ n. ground (arith, a.0))
  has_channel_by p c k_deleted v e a = (λ h n. ground arith, λ n. ground (arith, a.0))

  -- While the invariant holds, the poller has a channel exactly when the channel's index is not kNew.
  pub has_channel_iff :
      (p : Poller K) (c : ℕ) → Inv K p → (has_channel K p c ≡ true) ↔ ((p.chan c).index ≢ k_new)
  has_channel_iff p c v = has_channel_by p c (p.chan c).index v refl (v.agrees c)
