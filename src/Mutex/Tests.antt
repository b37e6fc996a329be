-- ===== src/Mutex/Tests.antt =====
-- Two threads at a mutex.
use tiny_os_project.Prelude.{true}
use tiny_os_project.Mutex.{Mutex, mutex_step, mutex_init, Reached, start, next}
use tiny_os_project.Mutex.Exclusion.{IsExclusive, mutex-IsExclusive}

abbrev one_spins : Mutex
one_spins =
    (mutex_step 4 true 1
      (mutex_step 4 true 0 (mutex_step 4 true 1 (mutex_step 4 true 0 mutex_init).0).0).0).0

one_spins-Reached : Reached 4 one_spins
one_spins-Reached = next true 1 (next true 0 (next true 1 (next true 0 start)))

mutex-IsExclusive_example : IsExclusive one_spins
mutex-IsExclusive_example = mutex-IsExclusive 4 one_spins one_spins-Reached
