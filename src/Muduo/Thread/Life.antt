-- ===== src/Muduo/Thread/Life.antt =====
-- A thread that is started once can be destroyed.
use alexproject.Common.{◌≡◌, refl, ℕ, Bool, true, false, some, none, arith}
use alexproject.Common.Decimal.{Text}
use alexproject.Muduo.Thread.{
  Native, no_thread, joinable, was_joined, Thread, new_thread, start, join, destroy,
}

-- The calls of an owner who starts the thread once at most; none of them has failed.
pub data Owned (num : ℕ) (name : Text) : Thread → Type 0 where
  fresh : Owned num name (new_thread num name)
  starts :
      {t u : Thread} → Owned num name t → t.started ≡ false → start t ≡ some u → Owned num name u
  joins : {t u : Thread} → Owned num name t → join t ≡ some u → Owned num name u

abbrev Matches : Bool → Bool → Native → Type 0
Matches false joined native = (joined ≡ false) × (native ≡ no_thread)
Matches true false native = native ≡ joinable
Matches true true native = native ≡ was_joined

Owned-Matches :
    {num : ℕ} {name : Text} {t : Thread} → Owned num name t → Matches t.started t.joined t.native
unfolding new_thread start join
Owned-Matches fresh = (refl, refl)
Owned-Matches (starts o e h) = ground (arith, Owned-Matches o)
Owned-Matches (joins o h) = ground (arith, Owned-Matches o)

-- After the calls of an owner who starts the thread once at most, whether it is joined or not, the destructor
-- succeeds: it detaches just a thread that runs unjoined, and no `std::thread` that can be joined is
-- dropped.
pub destroy-Owned :
    {num : ℕ} {name : Text} {t : Thread} → Owned num name t → destroy t ≡ some no_thread
unfolding destroy
destroy-Owned o = ground (arith, Owned-Matches o)

-- A thread that is started again after it was joined ends the process when it is destroyed, since `joined_` is
-- still set.
pub restarted :
    (t : Thread)
    → t.native ≡ was_joined
    → t.joined ≡ true
    → (u : Thread) × (start t ≡ some u) × (destroy u ≡ none)
unfolding start destroy
restarted t e j = (record t { started = true; native = joinable }, rw e refl, rw j refl)
