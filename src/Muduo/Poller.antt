-- ===== src/Muduo/Poller.antt =====
-- project/MyMuduo/Poller.h, Poller.cc, EPollPoller.h and EPollPoller.cc: the channels that a loop
-- watches. A `Channel*` is a number, and the channels live in a store under these numbers.
pub mod Kernel
pub mod Invariant
pub mod Calls
pub mod Update
pub mod Remove
pub mod Wait
pub mod Lifecycle
pub mod Table
mod Tests
use alexproject.Common.{
  ℕ, ◌*◌, ◌≡◌, Bool, true, false, not, ◌&&◌, List, [], ◌∷◌, ◌++◌, Option, none, some, ◌==◌,
  if◌then◌else◌, length,
}
use alexproject.Muduo.Channel.{
  Channel, Index, k_new, k_added, k_deleted, is_none_event, with_reading, without_reading,
  with_writing, without_writing, k_none_event,
}
use Kernel.{Epoll, CtlOp, ctl_add, ctl_mod, ctl_del}

abbrev pub k_init_event_list_size : ℕ
k_init_event_list_size = 16

abbrev pub update_at {ℓ} : {A : Type ℓ} → (ℕ → A) → ℕ → A → ℕ → A
update_at f k v j = if k == j then v else f j

-- `LOG_FATAL` logs and leaves the process.
pub data Outcome {ℓ} (A : Type ℓ) : Type ℓ where
  ok : A → Outcome A
  fatal : Outcome A

infixl 5 ◌>>=◌
abbrev pub ◌>>=◌ {ℓ ℓ'} : {A : Type ℓ} {B : Type ℓ'} → Outcome A → (A → Outcome B) → Outcome B
ok a >>= f = f a
fatal >>= f = fatal

module _ (K : Epoll) where
  pub record Poller : Type 0 where
    pub chan : ℕ → Channel
    pub channels : ℕ → Option ℕ
    pub event_list_size : ℕ
    pub kernel : K.State

  unfoldable pub new_poller : (ℕ → Channel) → Poller
  new_poller chan = record {
    chan = chan;
    channels = λ fd. none;
    event_list_size = k_init_event_list_size;
    kernel = K.created;
  }

  -- `Poller::hasChannel`
  pub has_channel : Poller → ℕ → Bool
  has_channel p c = elim (p.channels (p.chan c).fd) [ none ↦ false | some d ↦ d == c ]

  -- `channel->set_index(i)`
  set_index : Poller → ℕ → Index → Poller
  set_index p c i = record p { chan = update_at p.chan c (record (p.chan c) { index = i }) }

  failed : CtlOp → Poller → Outcome Poller
  failed ctl_del p = ok p
  failed ctl_add p = fatal
  failed ctl_mod p = fatal

  -- `EpollPoller::update`; a failing EPOLL_CTL_DEL is only logged.
  pub update : Poller → CtlOp → ℕ → Outcome Poller
  unfolding failed
  update p op c = elim (K.ctl op (p.chan c).fd (p.chan c).events c p.kernel) [
    | none ↦ failed op p
    | some k ↦ ok (record p { kernel = k })
  ]

  then_deleted : ℕ → Outcome Poller → Outcome Poller
  unfolding set_index
  then_deleted c (ok p) = ok (set_index p c k_deleted)
  then_deleted c fatal = fatal

  by_index : Index → Poller → ℕ → Outcome Poller
  unfolding set_index update then_deleted
  by_index k_new p c =
      update
        (set_index (record p { channels = update_at p.channels (p.chan c).fd (some c) }) c k_added)
        ctl_add c
  by_index k_deleted p c = update (set_index p c k_added) ctl_add c
  by_index k_added p c =
      if is_none_event (p.chan c).events
      then then_deleted c (update p ctl_del c)
      else update p ctl_mod c

  unfoldable pub update_channel : Poller → ℕ → Outcome Poller
  unfolding by_index
  update_channel p c = by_index (p.chan c).index p c

  then_new : ℕ → Outcome Poller → Outcome Poller
  unfolding set_index
  then_new c (ok p) = ok (set_index p c k_new)
  then_new c fatal = fatal

  remove_by_index : Index → Poller → ℕ → Outcome Poller
  unfolding update then_new
  remove_by_index k_added p c = then_new c (update p ctl_del c)
  remove_by_index k_deleted p c = then_new c (ok p)
  remove_by_index k_new p c = then_new c (ok p)

  unfoldable pub remove_channel : Poller → ℕ → Outcome Poller
  unfolding remove_by_index
  remove_channel p c =
      remove_by_index (p.chan c).index
        (record p { channels = update_at p.channels (p.chan c).fd none }) c

  -- The methods of a channel that set `events_` and call `update()`, which goes through the loop to
  -- `updateChannel`.
  unfoldable pub set_events : Poller → ℕ → ℕ → Outcome Poller
  unfolding update_channel
  set_events p c events =
      update_channel
        (record p { chan = update_at p.chan c (record (p.chan c) { events = events }) }) c

  pub enable_reading : Poller → ℕ → Outcome Poller
  unfolding set_events
  enable_reading p c = set_events p c (with_reading (p.chan c).events)

  pub disable_reading : Poller → ℕ → Outcome Poller
  unfolding set_events
  disable_reading p c = set_events p c (without_reading (p.chan c).events)

  pub enable_writing : Poller → ℕ → Outcome Poller
  unfolding set_events
  enable_writing p c = set_events p c (with_writing (p.chan c).events)

  pub disable_writing : Poller → ℕ → Outcome Poller
  unfolding set_events
  disable_writing p c = set_events p c (without_writing (p.chan c).events)

  pub disable_all : Poller → ℕ → Outcome Poller
  unfolding set_events
  disable_all p c = set_events p c k_none_event

  -- `new Channel` in the place `c`.
  unfoldable pub install : Poller → ℕ → Channel → Poller
  install p c ch = record p { chan = update_at p.chan c ch }

  -- `disableAll` and `remove`, as the destructors call them.
  unfoldable pub retire : Poller → ℕ → Outcome Poller
  unfolding disable_all remove_channel
  retire p c = do q ← disable_all p c; remove_channel q c

  -- One `epoll_event` that came: its `data.ptr` and its `events`.
  abbrev pub Ready : Type 0
  Ready = record { ptr : ℕ; events : ℕ }

  -- `fillActiveChannels`
  pub fill_active_channels : (ℕ → Channel) → List Ready → List ℕ → (ℕ → Channel) × List ℕ
  fill_active_channels chan [] active = (chan, active)
  fill_active_channels chan (e ∷ es) active =
      fill_active_channels (update_at chan e.ptr (record (chan e.ptr) { revents = e.events })) es
        (active ++ e.ptr ∷ [])

  -- `EpollPoller::poll`, given what `epoll_wait` returned: `none` is -1, an error or a signal.
  pub poll : Poller → Option (List Ready) → List ℕ → Poller × List ℕ
  unfolding fill_active_channels
  poll p none active = (p, active)
  poll p (some []) active = (p, active)
  poll p (some (e ∷ es)) active =
      let (chan, active') = fill_active_channels p.chan (e ∷ es) active in
      (
        record p {
          chan = chan;
          event_list_size =
              if length (e ∷ es) == p.event_list_size
              then p.event_list_size * 2
              else p.event_list_size;
        },
        active',
      )
