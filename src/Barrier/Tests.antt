-- ===== src/Barrier/Tests.antt =====
-- A barrier for two threads, with one in wait.
use tiny_os_project.Prelude.{refl, arith}
use tiny_os_project.Barrier.{
  Barrier, barrier_sync, barrier_init, set_thread, asleep, Reached, start, next,
}
use tiny_os_project.Barrier.Rounds.{IsBarrier, Awaits}
use tiny_os_project.Barrier.Runs.{Reached-Awaits}

abbrev one_waits : Barrier
one_waits = set_thread 0 (asleep 0) (record barrier_init { count = 1 })

one_waits-Reached : Reached 2 2 1 one_waits
unfolding barrier_sync
one_waits-Reached = next 0 (omega arith) start refl

Reached-Awaits_example :
    IsBarrier 2 2 one_waits × Awaits 2 2 1 one_waits (barrier_sync 2 1 one_waits)
Reached-Awaits_example =
    Reached-Awaits 2 2 1 1 one_waits (omega arith) (omega arith) (omega arith) (omega arith)
      one_waits-Reached
