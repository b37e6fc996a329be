-- ===== src/Mutex.antt =====
-- kernel_cc.c, `Mutex_Lock` and `Mutex_Unlock`. A mutex is a byte, which GCC's atomic operations test and
-- set, load and clear. A step of a thread is one of these, with the code behind it up to the next.
pub mod Exclusion
pub mod Tests
use tiny_os_project.Prelude.{ℕ, suc, ◌-◌, ◌≡◌, Bool, true, false, ◌&&◌, ltb, if◌then◌else◌, update}

-- Where a thread stands: outside, in front of the test of the outer loop, in front of the load of the inner
-- loop with its `spin`, or with the lock.
pub data Locker : Type 0 where
  outside testing holding : Locker
  spinning : (spin : ℕ) → Locker

pub record Mutex : Type 0 where
  pub locked : Bool
  pub threads : ℕ → Locker

-- `MUTEX_SPINS`
abbrev pub mutex_spins : (cpu_cores : ℕ) → ℕ
mutex_spins cpu_cores = if ltb 1 cpu_cores then 1000 else 10000

abbrev pub set_locker : ℕ → Locker → Mutex → Mutex
set_locker i p m = record m { threads = update m.threads i p }

-- A step, and whether it calls `yield`. A thread outside calls `Mutex_Lock`; one that holds the lock calls
-- `Mutex_Unlock`. `interrupts` is what `cpu_interrupts_enabled` returns.
abbrev pub locker_step : (cpu_cores : ℕ) (interrupts : Bool) (i : ℕ) → Locker → Mutex → Mutex × Bool
locker_step cpu_cores interrupts i outside m = (set_locker i testing m, false)
locker_step cpu_cores interrupts i testing m =
    if m.locked
    then (set_locker i (spinning (mutex_spins cpu_cores)) m, false)
    else (record (set_locker i holding m) { locked = true }, false)
locker_step cpu_cores interrupts i (spinning spin) m =
    if m.locked
    then (if ltb 0 spin
        then (set_locker i (spinning (spin - 1)) m, false)
        else (set_locker i (spinning (mutex_spins cpu_cores)) m, interrupts))
    else (set_locker i testing m, false)
locker_step cpu_cores interrupts i holding m =
    (record (set_locker i outside m) { locked = false }, false)

unfoldable pub mutex_step : (cpu_cores : ℕ) (interrupts : Bool) (i : ℕ) → Mutex → Mutex × Bool
mutex_step cpu_cores interrupts i m = locker_step cpu_cores interrupts i (m.threads i) m

-- `MUTEX_INIT`, with all threads outside.
abbrev pub mutex_init : Mutex
mutex_init = record { locked = false; threads = λ i. outside }

-- The states that steps of any threads in any order lead to.
pub data Reached (cpu_cores : ℕ) : Mutex → Type 0 where
  start : Reached cpu_cores mutex_init
  next :
      {m : Mutex} (interrupts : Bool) (i : ℕ)
      → Reached cpu_cores m
      → Reached cpu_cores (mutex_step cpu_cores interrupts i m).0
