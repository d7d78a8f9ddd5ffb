-- ===== src/Muduo/Poller/Calls.antt =====
-- `EPollPoller::update`: the calls of epoll_ctl(2) that succeed.
use alexproject.Common.{ℕ, ◌≡◌, none, some, ◌==◌, if◌then◌else◌}
use alexproject.Muduo.Poller.Kernel.{Epoll, ctl_add, ctl_mod, ctl_del}
use alexproject.Muduo.Poller.{Poller, ok, update}

module _ (K : Epoll) where
  -- The call of `epoll_ctl` of each operation succeeds where the interest list allows it.
  module _ (p : Poller K) (c fd e : ℕ) (at_fd : (p.chan c).fd ≡ fd)
      (at_events : (p.chan c).events ≡ e) where
    pub update_add :
        K.interest p.kernel fd ≡ none
        → (k : K.State) × (update K p ctl_add c ≡ ok (record p { kernel = k }))
          × ((j : ℕ) → K.interest k j ≡ (if fd == j then some (e, c) else K.interest p.kernel j))
    unfolding update
    update_add h =
        let (k, done, l) = K.add_lem p.kernel fd e c h in
        (k, rw (at_fd, at_events, done, update), l)

    pub update_mod :
        {old : ℕ × ℕ}
        → K.interest p.kernel fd ≡ some old
        → (k : K.State) × (update K p ctl_mod c ≡ ok (record p { kernel = k }))
          × ((j : ℕ) → K.interest k j ≡ (if fd == j then some (e, c) else K.interest p.kernel j))
    unfolding update
    update_mod h =
        let (k, done, l) = K.mod_lem p.kernel fd e c h in
        (k, rw (at_fd, at_events, done, update), l)

    pub update_del :
        {old : ℕ × ℕ}
        → K.interest p.kernel fd ≡ some old
        → (k : K.State) × (update K p ctl_del c ≡ ok (record p { kernel = k }))
          × ((j : ℕ) → K.interest k j ≡ (if fd == j then none else K.interest p.kernel j))
    unfolding update
    update_del h =
        let (k, done, l) = K.del_lem p.kernel fd e c h in
        (k, rw (at_fd, at_events, done, update), l)
