-- ===== src/Muduo/Poller/Invariant.antt =====
-- The index of a channel, the map of the poller and the interest list of the kernel agree.
use alexproject.Common.{
  ℕ, ◌≡◌, ◌≢◌, ap, ◌⊎◌, inl, inr, Option, none, some, ◌==◌, if◌then◌else◌, arith, false, Bool-cases,
}
use alexproject.Muduo.Channel.{Channel, Index, k_new, k_added, k_deleted}
use alexproject.Muduo.Poller.Kernel.{Epoll}
use alexproject.Muduo.Poller.{Poller}

module _ (K : Epoll) where
  -- What holds of channel `c` and of the entry of its descriptor.
  abbrev pub Agrees : Poller K → ℕ → Index → Type 0
  Agrees p c k_new = Unit
  Agrees p c k_added =
      (p.channels (p.chan c).fd ≡ some c)
      × (K.interest p.kernel (p.chan c).fd ≡ some ((p.chan c).events, c))
  Agrees p c k_deleted =
      (p.channels (p.chan c).fd ≡ some c)
      × (K.interest p.kernel (p.chan c).fd ≡ none)
      × ((p.chan c).events ≡ 0)

  pub record Inv (p : Poller K) : Type 0 where
    pub agrees : (c : ℕ) → Agrees p c (p.chan c).index
    pub owned :
        (fd c : ℕ) → p.channels fd ≡ some c → ((p.chan c).fd ≡ fd) × ((p.chan c).index ≢ k_new)
    pub foreign : (fd : ℕ) → p.channels fd ≡ none → K.interest p.kernel fd ≡ none

  -- A channel that is not registered has a descriptor that no other channel is registered under.
  abbrev pub Free : Poller K → ℕ → Type 0
  Free p c = (p.chan c).index ≡ k_new → p.channels (p.chan c).fd ≡ none

  abbrev pub Registered : Poller K → ℕ → Type 0
  Registered p c = (p.channels (p.chan c).fd ≡ none) ⊎ (p.channels (p.chan c).fd ≡ some c)

  pub registration :
      (p : Poller K) (c : ℕ) (i : Index)
      → (p.chan c).index ≡ i
      → Agrees p c i
      → Free p c
      → Registered p c
  registration p c k_new e a f = inl (f e)
  registration p c k_added e a f = inr a.0
  registration p c k_deleted e a f = inr a.0

  -- A change of channel `c` and of the entries of its descriptor alone: `x` in the map, `y` in the
  -- kernel.
  pub record Change (p q : Poller K) (c : ℕ) (x : Option ℕ) (y : Option (ℕ × ℕ)) : Type 0 where
    pub others : (d : ℕ) → (c == d) ≡ false → q.chan d ≡ p.chan d
    pub same_fd : (q.chan c).fd ≡ (p.chan c).fd
    pub map_entry : (fd : ℕ) → q.channels fd ≡ (if (p.chan c).fd == fd then x else p.channels fd)
    pub kernel_entry :
        (fd : ℕ)
        → K.interest q.kernel fd ≡ (if (p.chan c).fd == fd then y else K.interest p.kernel fd)
    pub agrees : Agrees q c (q.chan c).index
    pub entries : ((x ≡ some c) × ((q.chan c).index ≢ k_new)) ⊎ ((x ≡ none) × (y ≡ none))

  module _ (p q : Poller K) (c : ℕ) (x : Option ℕ) (y : Option (ℕ × ℕ)) (v : Inv p)
      (r : Registered p c) (t : Change p q c x y) where
    unaffected : (d : ℕ) (i : Index) → (c == d) ≡ false → Agrees p d i → Agrees q d i
    unaffected d k_new ne a = tt
    unaffected d k_added ne a =
        ground (arith, t.others d ne, t.map_entry (p.chan d).fd, t.kernel_entry (p.chan d).fd, r, a)
    unaffected d k_deleted ne a =
        ground (arith, t.others d ne, t.map_entry (p.chan d).fd, t.kernel_entry (p.chan d).fd, r, a)

    all_agree : (d : ℕ) → Agrees q d (q.chan d).index
    all_agree d = elim (Bool-cases (c == d)) [
      | inl e ↦ let e' : c ≡ d = ground arith in rw (← e') t.agrees
      | inr ne ↦
          let a = unaffected d (p.chan d).index ne (v.agrees d) in
          rw (← ap (λ (ch : Channel). ch.index) (t.others d ne)) at a
    ]

    all_owned :
        (fd d : ℕ) → q.channels fd ≡ some d → ((q.chan d).fd ≡ fd) × ((q.chan d).index ≢ k_new)
    all_owned fd d h = elim (Bool-cases ((p.chan c).fd == fd)) [
      | inl hit ↦ elim t.entries [
        | inl (e, live) ↦
            let same : c ≡ d = ground (arith, t.map_entry fd) in
            rw (← same) (ground (arith, t.same_fd), live)
        | inr (e, _) ↦ absurd (ground (arith, t.map_entry fd))
      ]
      | inr miss ↦
          let o = v.owned fd d (ground (arith, t.map_entry fd)) in
          let ne : (c == d) ≡ false = ground (arith, o.0) in rw (t.others d ne) o
    ]

    all_foreign : (fd : ℕ) → q.channels fd ≡ none → K.interest q.kernel fd ≡ none
    all_foreign fd h = ground (arith, t.map_entry fd, t.kernel_entry fd, v.foreign fd, t.entries)

    pub Change-Inv : Inv q
    Change-Inv = record { agrees = all_agree; owned = all_owned; foreign = all_foreign }
