-- ===== src/Muduo/Poller/Update.antt =====
-- `updateChannel` keeps the invariant, and no call of epoll_ctl(2) fails.
use alexproject.Common.{
  ℕ, ◌≡◌, ◌∙◌, ap, inl, inr, refl, none, some, ◌==◌, if◌then◌else◌, arith, true, false, Bool-cases,
}
use alexproject.Muduo.Channel.{Channel, Index, k_new, k_added, k_deleted, is_none_event}
use alexproject.Muduo.Poller.Kernel.{Epoll}
use alexproject.Muduo.Poller.{Poller, ok, update_at, update_channel, set_events}
use alexproject.Muduo.Poller.Invariant.{Inv, Agrees, Free, Registered, registration, Change-Inv}
use alexproject.Muduo.Poller.Calls.{update_add, update_mod, update_del}

module _ (K : Epoll) where
  -- What an operation on channel `c` leaves: the invariant, `c` with the events it asks for, and the
  -- other channels as they were.
  pub record Done (p : Poller K) (c events : ℕ) (q : Poller K) : Type 0 where
    pub inv : Inv K q
    pub asks : (q.chan c).events ≡ events
    pub kept_fd : (q.chan c).fd ≡ (p.chan c).fd
    pub others : (d : ℕ) → (c == d) ≡ false → q.chan d ≡ p.chan d

  -- `p'` is `p` where channel `c` asks for `events` and has not told the poller yet.
  record Asked (p p' : Poller K) (c events : ℕ) : Type 0 where
    others : (d : ℕ) → (c == d) ≡ false → p'.chan d ≡ p.chan d
    same_fd : (p'.chan c).fd ≡ (p.chan c).fd
    same_index : (p'.chan c).index ≡ (p.chan c).index
    asks : (p'.chan c).events ≡ events
    same_map : (fd : ℕ) → p'.channels fd ≡ p.channels fd
    same_kernel : p'.kernel ≡ p.kernel

  abbrev Succeeds : (p p' : Poller K) (c events : ℕ) → Type 0
  Succeeds p p' c events = (q : Poller K) × (update_channel K p' c ≡ ok q) × Done p c events q

  pub self : {A : Type 0} (f : ℕ → A) (c : ℕ) (a : A) → update_at f c a c ≡ a
  self f c a = ground arith

  module _ (p p' : Poller K) (c events : ℕ) (v : Inv K p) (r : Registered K p c)
      (t : Asked p p' c events) where
    -- `c` is in the kernel's interest list afterwards.
    added-Done :
        (q : Poller K)
        → ((d : ℕ) → (c == d) ≡ false → q.chan d ≡ p'.chan d)
        → ((q.chan c).fd ≡ (p.chan c).fd)
          × ((q.chan c).events ≡ events)
          × ((q.chan c).index ≡ k_added)
        → ((fd : ℕ) → q.channels fd ≡ (if (p.chan c).fd == fd then some c else p.channels fd))
        → ((fd : ℕ)
            → K.interest q.kernel fd
              ≡ (if (p.chan c).fd == fd then some (events, c) else K.interest p.kernel fd))
        → Done p c events q
    added-Done q os ch ms ks = record {
      inv = Change-Inv K p q c (some c) (some (events, c)) v r (record {
        others = λ d ne. os d ne ∙ t.others d ne;
        same_fd = ch.0;
        map_entry = ms;
        kernel_entry = ks;
        agrees = rw ch.2 (ground (arith, ms (p.chan c).fd, ks (p.chan c).fd, ch.0, ch.1));
        entries = inl (refl, λ e. ground (arith, ch.2));
      });
      asks = ch.1;
      kept_fd = ch.0;
      others = λ d ne. os d ne ∙ t.others d ne;
    }

    update_channel_new : (p.chan c).index ≡ k_new → Free K p c → Succeeds p p' c events
    unfolding update_channel
    update_channel_new e f =
        let ch : Channel = record (p'.chan c) { index = k_added } in
        let p2 : Poller K = record p' {
          chan = update_at p'.chan c ch;
          channels = update_at p'.channels (p'.chan c).fd (some c);
        } in
        let at_c : p2.chan c ≡ ch = self p'.chan c ch in
        let (k, done, l) =
          update_add K p2 c (p.chan c).fd events (ap (λ (h : Channel). h.fd) at_c ∙ t.same_fd)
            (ap (λ (h : Channel). h.events) at_c ∙ t.asks)
            (rw t.same_kernel (v.foreign (p.chan c).fd (f e))) in
        (
          record p2 { kernel = k },
          rw (t.same_index ∙ e, update_channel) done,
          added-Done _ (λ d ne. ground arith)
              (
                ap (λ (h : Channel). h.fd) at_c ∙ t.same_fd,
                ap (λ (h : Channel). h.events) at_c ∙ t.asks,
                ap (λ (h : Channel). h.index) at_c,
              )
              (λ fd. ground (arith, t.same_fd, t.same_map fd))
              (λ fd. l fd ∙ ground (arith, t.same_kernel)),
        )

    update_channel_deleted :
        (p.chan c).index ≡ k_deleted → Agrees K p c k_deleted → Succeeds p p' c events
    unfolding update_channel
    update_channel_deleted e a =
        let ch : Channel = record (p'.chan c) { index = k_added } in
        let p2 : Poller K = record p' { chan = update_at p'.chan c ch } in
        let at_c : p2.chan c ≡ ch = self p'.chan c ch in
        let (k, done, l) =
          update_add K p2 c (p.chan c).fd events (ap (λ (h : Channel). h.fd) at_c ∙ t.same_fd)
            (ap (λ (h : Channel). h.events) at_c ∙ t.asks) (rw t.same_kernel a.1) in
        (
          record p2 { kernel = k },
          rw (t.same_index ∙ e, update_channel) done,
          added-Done _ (λ d ne. ground arith)
              (
                ap (λ (h : Channel). h.fd) at_c ∙ t.same_fd,
                ap (λ (h : Channel). h.events) at_c ∙ t.asks,
                ap (λ (h : Channel). h.index) at_c,
              )
              (λ fd. ground (arith, t.same_map fd, a.0))
              (λ fd. l fd ∙ ground (arith, t.same_kernel)),
        )

    update_channel_modified :
        (p.chan c).index ≡ k_added
        → Agrees K p c k_added
        → is_none_event events ≡ false
        → Succeeds p p' c events
    unfolding update_channel
    update_channel_modified e a some_event =
        let (k, done, l) =
          update_mod K p' c (p.chan c).fd events t.same_fd t.asks {old = ((p.chan c).events, c)}
            (rw t.same_kernel a.1) in
        (
          record p' { kernel = k },
          rw (t.same_index ∙ e, update_channel) (rw (t.asks) (rw some_event done)),
          added-Done _ (λ d ne. refl) (t.same_fd, t.asks, t.same_index ∙ e)
              (λ fd. ground (arith, t.same_map fd, a.0))
              (λ fd. l fd ∙ ground (arith, t.same_kernel)),
        )

    update_channel_emptied :
        (p.chan c).index ≡ k_added
        → Agrees K p c k_added
        → is_none_event events ≡ true
        → Succeeds p p' c events
    unfolding update_channel is_none_event
    update_channel_emptied e a no_event =
        let (k, done, l) =
          update_del K p' c (p.chan c).fd events t.same_fd t.asks {old = ((p.chan c).events, c)}
            (rw t.same_kernel a.1) in
        let ch : Channel = record (p'.chan c) { index = k_deleted } in
        let q : Poller K = record p' { kernel = k; chan = update_at p'.chan c ch } in
        let at_c : q.chan c ≡ ch = self p'.chan c ch in
        let empty : is_none_event (p'.chan c).events ≡ true = rw t.asks no_event in
        (
          q,
          rw (t.same_index ∙ e, update_channel) (rw (empty, done)),
          record {
            inv = Change-Inv K p q c (some c) none v r (record {
              others = λ d ne. ground (arith, t.others d ne);
              same_fd = ap (λ (h : Channel). h.fd) at_c ∙ t.same_fd;
              map_entry = (λ fd. ground (arith, t.same_map fd, a.0));
              kernel_entry = (λ fd. l fd ∙ ground (arith, t.same_kernel));
              agrees = rw (ap (λ (h : Channel). h.index) at_c) (
                  ground (
                    arith,
                    t.same_map (p.chan c).fd,
                    a.0,
                    l (p.chan c).fd,
                    ap (λ (h : Channel). h.fd) at_c,
                    t.same_fd,
                    ap (λ (h : Channel). h.events) at_c,
                    t.asks,
                  ));
              entries = inl (refl, λ e. ground (arith, ap (λ (h : Channel). h.index) at_c));
            });
            asks = ap (λ (h : Channel). h.events) at_c ∙ t.asks;
            kept_fd = ap (λ (h : Channel). h.fd) at_c ∙ t.same_fd;
            others = λ d ne. ground (arith, t.others d ne);
          },
        )

    update_channel-Succeeds :
        (i : Index) → (p.chan c).index ≡ i → Agrees K p c i → Free K p c → Succeeds p p' c events
    update_channel-Succeeds k_new e a f = update_channel_new e f
    update_channel-Succeeds k_deleted e a f = update_channel_deleted e a
    update_channel-Succeeds k_added e a f = elim (Bool-cases (is_none_event events)) [
      | inl y ↦ update_channel_emptied e a y
      | inr n ↦ update_channel_modified e a n
    ]

  -- While the invariant holds and channel `c` is registered or its descriptor is free, every method
  -- of `c` that sets its events succeeds: epoll_ctl never fails, so the loop is not left by
  -- LOG_FATAL. Afterwards the invariant holds, `c` asks for the given events on the same descriptor, and
  -- every other channel is as it was.
  pub set_events-Done :
      (p : Poller K) (c events : ℕ)
      → Inv K p
      → Free K p c
      → (q : Poller K) × (set_events K p c events ≡ ok q) × Done p c events q
  unfolding set_events
  set_events-Done p c events v f =
      let ch : Channel = record (p.chan c) { events = events } in
      let at_c : update_at p.chan c ch c ≡ ch = self p.chan c ch in
      update_channel-Succeeds p (record p { chan = update_at p.chan c ch }) c events v
        (registration K p c (p.chan c).index refl (v.agrees c) f)
        (record {
          others = λ d ne. ground arith;
          same_fd = ap (λ (h : Channel). h.fd) at_c;
          same_index = ap (λ (h : Channel). h.index) at_c;
          asks = ap (λ (h : Channel). h.events) at_c;
          same_map = λ fd. refl;
          same_kernel = refl;
        })
        (p.chan c).index refl (v.agrees c) f
