-- ===== src/Muduo/Poller/Table.antt =====
-- For the tests: an epoll instance that is a function from descriptors.
use alexproject.Common.{ℕ, refl, Option, none, some}
use alexproject.Muduo.Poller.Kernel.{Epoll, CtlOp, ctl_add, ctl_mod, ctl_del}
use alexproject.Muduo.Poller.{update_at}

abbrev pub Table : Type 0
Table = ℕ → Option (ℕ × ℕ)

abbrev pub on_entry : CtlOp → ℕ → ℕ → ℕ → Table → Option (ℕ × ℕ) → Option Table
on_entry ctl_add fd e p t none = some (update_at t fd (some (e, p)))
on_entry ctl_add fd e p t (some old) = none
on_entry ctl_mod fd e p t none = none
on_entry ctl_mod fd e p t (some old) = some (update_at t fd (some (e, p)))
on_entry ctl_del fd e p t none = none
on_entry ctl_del fd e p t (some old) = some (update_at t fd none)

abbrev pub table : Epoll
table = record {
  State = Table;
  created = λ fd. none;
  interest = λ t fd. t fd;
  ctl = λ op fd e p t. on_entry op fd e p t (t fd);
  interest-created = λ fd. refl;
  add_lem = λ k fd e p h. (update_at k fd (some (e, p)), rw h refl, λ j. refl);
  mod_lem = λ k fd e p h. (update_at k fd (some (e, p)), rw h refl, λ j. refl);
  del_lem = λ k fd e p h. (update_at k fd none, rw h refl, λ j. refl);
  add_present = λ k fd e p h. rw h refl;
  mod_absent = λ k fd e p h. rw h refl;
  del_absent = λ k fd e p h. rw h refl;
}
