-- ===== src/Muduo/Thread/Tests.antt =====
-- A thread with the id 812 that is started and not joined.
use alexproject.Common.Reach.{Reach, here, next}
use alexproject.Common.{◌+◌, ◌≡◌, ◌⊎◌, refl, true, some}
use alexproject.Common.Literal.{codes}
use alexproject.Muduo.Thread.{
  no_thread, joinable, Thread, new_thread, start, destroy, default_name, Starting, new_starting,
  create, set_tid,
}
use alexproject.Muduo.Thread.Start.{Step, creates, names, left, steps, Started, start_terminates}
use alexproject.Muduo.Thread.Life.{Owned, fresh, starts, destroy-Owned}

first_name : default_name 1 (codes "") ≡ codes "Thread1"
unfolding default_name
first_name = refl

abbrev begun : Starting
unfolding new_starting create set_tid
begun = set_tid (create (new_starting 812))

begun-Reach : Reach Step (new_starting 812) begun
unfolding new_starting create set_tid begun
begun-Reach = next (next here (creates refl)) (names refl)

start_terminates_example :
    (left begun + steps begun-Reach ≡ 4) × (Started 812 begun ⊎ ((t : Starting) × Step begun t))
start_terminates_example = start_terminates 812 begun-Reach

abbrev ready : Thread
unfolding new_thread start
ready = record (new_thread 1 (codes "loop")) { started = true; native = joinable }

ready-Owned : Owned 1 (codes "loop") ready
unfolding new_thread start
ready-Owned = starts fresh refl refl

ready_destroyed : destroy ready ≡ some no_thread
ready_destroyed = destroy-Owned ready-Owned
