-- ===== src/Muduo/Thread.antt =====
-- project/MyMuduo/Thread.h, Thread.cc, CurrentThread.h and CurrentThread.cc: a thread with its kernel id, and the
-- start that waits for the id.
pub mod Start
pub mod Life
mod Tests
use alexproject.Common.{
  ℕ, ◌+◌, ◌-◌, Bool, true, false, not, ◌&&◌, Option, none, some, ◌==◌, if◌then◌else◌, ◌∷◌, ◌++◌, [],
  ◌>>=◌, length,
}
use alexproject.Common.Decimal.{Text, decimal, truncated}
use alexproject.Common.Literal.{codes}

-- `CurrentThread::tid()`: the cached id of the thread, and what gettid(2) returns where there is none.
unfoldable pub current_tid : ℕ → ℕ → ℕ
current_tid cached gettid = if cached == 0 then gettid else cached

-- The `std::thread` behind the pointer: none yet, one that can be joined, one that was joined, or one that was
-- detached.
pub data Native : Type 0 where
  no_thread joinable was_joined detached : Native

pub record Thread : Type 0 where
  pub started : Bool
  pub joined : Bool
  pub native : Native
  pub tid : ℕ
  pub name : Text

-- `setDefaultName`, with the number that `++numCreated_` gave.
unfoldable pub default_name : ℕ → Text → Text
unfolding decimal
default_name num name =
    if length name == 0 then truncated 32 (codes "Thread" ++ decimal num) else name

unfoldable pub new_thread : ℕ → Text → Thread
unfolding default_name
new_thread num name = record {
  started = false;
  joined = false;
  native = no_thread;
  tid = 0;
  name = default_name num name;
}

-- What `start` does to the object before it waits. Where the old `std::thread` can still be joined, its destructor
-- ends the process: `none`.
unfoldable pub start : Thread → Option Thread
start t = elim t.native [
  | joinable ↦ none
  | no_thread ↦ some (record t { started = true; native = joinable })
  | was_joined ↦ some (record t { started = true; native = joinable })
  | detached ↦ some (record t { started = true; native = joinable })
]

-- `join`: `none` for a null pointer, and where `std::thread::join` throws.
unfoldable pub join : Thread → Option Thread
join t = elim t.native [
  | no_thread ↦ none
  | joinable ↦ some (record t { joined = true; native = was_joined })
  | was_joined ↦ none
  | detached ↦ none
]

-- `detach()` of the `std::thread`.
unfoldable pub detach : Native → Option Native
detach no_thread = none
detach joinable = some detached
detach was_joined = none
detach detached = none

-- The destructor of the `std::thread` ends the process where it can still be joined.
unfoldable pub drop_native : Native → Option Native
drop_native joinable = none
drop_native no_thread = some no_thread
drop_native was_joined = some no_thread
drop_native detached = some no_thread

unfoldable pub destroy : Thread → Option Native
unfolding detach drop_native
destroy t = do
  let leaves = t.started && not t.joined
  native ← if leaves then detach t.native else some t.native
  drop_native native

-- The caller of `start`, and the new thread: before it reads its id, before it posts, in its function.
pub data Starter : Type 0 where
  before_start waiting returned : Starter

pub data Worker : Type 0 where
  unborn naming posting running : Worker

-- `gettid`: the id that the kernel gives the new thread.
pub record Starting : Type 0 where
  pub caller : Starter
  pub runner : Worker
  pub tid : ℕ
  pub sem : ℕ
  pub gettid : ℕ

unfoldable pub new_starting : ℕ → Starting
new_starting gettid = record {
  caller = before_start;
  runner = unborn;
  tid = 0;
  sem = 0;
  gettid = gettid;
}

-- `sem_init` and the new thread.
unfoldable pub create : Starting → Starting
create s = record s { caller = waiting; runner = naming; sem = 0 }

-- `tid_ = CurrentThread::tid()` in a thread that has cached nothing.
unfoldable pub set_tid : Starting → Starting
unfolding current_tid
set_tid s = record s { tid = current_tid 0 s.gettid; runner = posting }

unfoldable pub post : Starting → Starting
post s = record s { sem = s.sem + 1; runner = running }

-- `sem_wait` returns.
unfoldable pub pass : Starting → Starting
pass s = record s { sem = s.sem - 1; caller = returned }
