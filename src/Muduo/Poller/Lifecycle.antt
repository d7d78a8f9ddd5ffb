-- ===== src/Muduo/Poller/Lifecycle.antt =====
-- A channel from its construction to its removal.
use alexproject.Common.{
  ℕ, ◌≡◌, ◌≢◌, ◌∙◌, ap, refl, true, false, none, ◌==◌, arith, Bool-cases, inl, inr,
}
use alexproject.Muduo.Channel.{
  Channel, Index, k_new, k_added, k_deleted, k_none_event, with_reading,
}
use alexproject.Muduo.Poller.Kernel.{Epoll}
use alexproject.Muduo.Poller.{
  Poller, new_poller, ok, update_at, update, set_events, enable_reading, disable_all, has_channel,
  install, retire,
}
use alexproject.Muduo.Poller.Invariant.{Inv, Agrees}
use alexproject.Muduo.Poller.Update.{Done, set_events-Done, self}
use alexproject.Muduo.Poller.Remove.{remove_channel-Done, has_channel_iff}

module _ (K : Epoll) where
  Agrees-install :
      (p : Poller K) (c d : ℕ) (ch : Channel) (i : Index)
      → (c == d) ≡ false
      → Agrees K p d i
      → Agrees K (install K p c ch) d i
  unfolding install
  Agrees-install p c d ch k_new ne a = tt
  Agrees-install p c d ch k_added ne a = rw ne a
  Agrees-install p c d ch k_deleted ne a = rw ne a

  -- A new channel in an unused place is not registered, and the others do not notice.
  pub install-Inv :
      (p : Poller K) (c : ℕ) (ch : Channel)
      → Inv K p
      → (p.chan c).index ≡ k_new
      → ch.index ≡ k_new
      → Inv K (install K p c ch)
  unfolding install
  install-Inv p c ch v unused fresh = record {
    agrees = λ d. elim (Bool-cases (c == d)) [
      | inl y ↦ rw y (rw fresh tt)
      | inr ne ↦ rw ne (Agrees-install p c d ch (p.chan d).index ne (v.agrees d))
    ];
    owned = λ fd d e.
        let (at_fd, live) = v.owned fd d e in
        let ne : (c == d) ≡ false = ground (arith, live) in rw ne (at_fd, live);
    foreign = λ fd e. v.foreign fd e;
  }

  -- After any of the methods that set events the channel is known to the poller.
  pub set_events-live :
      (p q : Poller K) (c events : ℕ) (i : Index)
      → (p.chan c).index ≡ i
      → set_events K p c events ≡ ok q
      → (q.chan c).index ≢ k_new
  unfolding set_events update
  set_events-live p q c events k_new e h = ground arith
  set_events-live p q c events k_added e h = ground arith
  set_events-live p q c events k_deleted e h = ground arith

  -- The first `enableReading` of a channel on a free descriptor registers it.
  pub enable_reading-new :
      (p : Poller K) (c : ℕ)
      → Inv K p
      → (p.chan c).index ≡ k_new
      → p.channels (p.chan c).fd ≡ none
      → (q : Poller K) × (enable_reading K p c ≡ ok q)
        × Done K p c (with_reading (p.chan c).events) q
        × (has_channel K q c ≡ true)
  unfolding enable_reading
  enable_reading-new p c v fresh free =
      let (q, e, d) = set_events-Done K p c (with_reading (p.chan c).events) v (λ _. free) in
      let live = set_events-live p q c (with_reading (p.chan c).events) k_new fresh e in
      (q, e, d, (has_channel_iff K q c d.inv).1 live)

  -- What is left when the owner of channel `c` has gone.
  pub record Retired (p : Poller K) (c : ℕ) (q : Poller K) : Type 0 where
    pub inv : Inv K q
    pub gone : has_channel K q c ≡ false
    pub asks : (q.chan c).events ≡ k_none_event
    pub others : (d : ℕ) → (c == d) ≡ false → q.chan d ≡ p.chan d

  -- While the invariant holds and channel `c` is registered or its descriptor is free, `disableAll` and `remove`
  -- both succeed.
  pub retire-Retired :
      (p : Poller K) (c : ℕ)
      → Inv K p
      → has_channel K p c ≡ true
      → (q : Poller K) × (retire K p c ≡ ok q) × Retired p c q
  unfolding retire disable_all
  retire-Retired p c v here =
      let known = (has_channel_iff K p c v).0 here in
      let (q, e, d) = set_events-Done K p c k_none_event v (λ n. absurd (known n)) in
      let (r, f, g, gone, _, _, _) =
        remove_channel-Done K q c d.inv
          (λ n. absurd (set_events-live p q c k_none_event (p.chan c).index refl e n)) in
      (
        r,
        rw e f,
        record {
          inv = g.inv;
          gone = gone;
          asks = g.asks ∙ d.asks;
          others = λ x ne. g.others x ne ∙ d.others x ne;
        },
      )

  pub install-unknown :
      (p : Poller K) (c : ℕ) (ch : Channel)
      → p.channels ch.fd ≡ none
      → has_channel K (install K p c ch) c ≡ false
  unfolding install has_channel
  install-unknown p c ch free = ground (arith, free)

  -- A new channel that is watched for input from now on.
  pub install-watched :
      (p : Poller K) (c : ℕ) (ch : Channel)
      → Inv K p
      → (p.chan c).index ≡ k_new
      → ch.index ≡ k_new
      → p.channels ch.fd ≡ none
      → (q : Poller K) × (enable_reading K (install K p c ch) c ≡ ok q)
        × Done K (install K p c ch) c (with_reading ch.events) q
        × (has_channel K q c ≡ true)
  unfolding install
  install-watched p c ch v unused fresh free =
      let at_c : update_at p.chan c ch c ≡ ch = self K p.chan c ch in
      rw at_c at (
        enable_reading-new (install K p c ch) c (install-Inv p c ch v unused fresh)
          (ap (λ (h : Channel). h.index) at_c ∙ fresh)
          (ap (λ (h : Channel). p.channels h.fd) at_c ∙ free))

  pub others-install :
      (p : Poller K) (c d : ℕ) (ch : Channel)
      → (c == d) ≡ false
      → (install K p c ch).chan d ≡ p.chan d
  unfolding install
  others-install p c d ch ne = rw ne refl

  pub new_poller-Inv :
      (chan : ℕ → Channel) → ((c : ℕ) → (chan c).index ≡ k_new) → Inv K (new_poller K chan)
  unfolding new_poller
  new_poller-Inv chan fresh = record {
    agrees = λ c. rw (fresh c) tt;
    owned = λ fd c e. absurd (ground arith);
    foreign = λ fd e. K.interest-created fd;
  }
