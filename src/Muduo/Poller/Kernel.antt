-- ===== src/Muduo/Poller/Kernel.antt =====
-- The interest list of an epoll instance, as epoll_ctl(2) documents it, with no want of memory or
-- watches.
use alexproject.Common.{ℕ, ◌≡◌, Option, none, some, ◌==◌, if◌then◌else◌}

pub data CtlOp : Type 0 where
  ctl_add ctl_mod ctl_del : CtlOp

pub record Epoll : Type 1 where
  pub State : Type 0
  pub created : State
  -- The events and the `data.ptr` registered for a descriptor.
  pub interest : State → ℕ → Option (ℕ × ℕ)
  -- `epoll_ctl(epollfd, op, fd, {events, ptr})`; `none` is -1.
  pub ctl : CtlOp → ℕ → ℕ → ℕ → State → Option State
  pub interest-created : (fd : ℕ) → interest created fd ≡ none
  pub add_lem :
      (k : State) (fd e p : ℕ)
      → interest k fd ≡ none
      → (k' : State) × (ctl ctl_add fd e p k ≡ some k')
        × ((j : ℕ) → interest k' j ≡ (if fd == j then some (e, p) else interest k j))
  pub mod_lem :
      (k : State) (fd e p : ℕ) {old : ℕ × ℕ}
      → interest k fd ≡ some old
      → (k' : State) × (ctl ctl_mod fd e p k ≡ some k')
        × ((j : ℕ) → interest k' j ≡ (if fd == j then some (e, p) else interest k j))
  pub del_lem :
      (k : State) (fd e p : ℕ) {old : ℕ × ℕ}
      → interest k fd ≡ some old
      → (k' : State) × (ctl ctl_del fd e p k ≡ some k')
        × ((j : ℕ) → interest k' j ≡ (if fd == j then none else interest k j))
  pub add_present :
      (k : State) (fd e p : ℕ) {old : ℕ × ℕ}
      → interest k fd ≡ some old
      → ctl ctl_add fd e p k ≡ none
  pub mod_absent : (k : State) (fd e p : ℕ) → interest k fd ≡ none → ctl ctl_mod fd e p k ≡ none
  pub del_absent : (k : State) (fd e p : ℕ) → interest k fd ≡ none → ctl ctl_del fd e p k ≡ none
