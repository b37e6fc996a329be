-- ===== src/Barrier.antt =====
-- tinyoslib.c and tinyoslib.h, `BarrierSync`: a monitor over `Mutex_Lock`, `Cond_Wait` and `Cond_Broadcast`.
-- A thread's moves are its sections under the mutex, up to `Mutex_Unlock` or to the sleep in `Cond_Wait`; the
-- sections of different threads come in any order.
pub mod Rounds
pub mod Runs
pub mod Tests
use tiny_os_project.Prelude.{
  ℕ, suc, ◌+◌, ◌%◌, ◌^◌, ◌<◌, ◌≡◌, Bool, true, false, not, ◌||◌, ltb, ◌==◌, if◌then◌else◌, update,
}

-- Where a thread stands: outside of `BarrierSync`, or in `Cond_Wait` with the value of its variable `epoch`,
-- asleep or woken up.
pub data BarrierThread : Type 0 where
  outside : BarrierThread
  asleep awake : (epoch : ℕ) → BarrierThread

-- `count` and `epoch` are of type `unsigned int`.
pub record Barrier : Type 0 where
  pub count : ℕ
  pub epoch : ℕ
  pub threads : ℕ → BarrierThread

-- What a section does; `stays` is for a thread that sleeps.
pub data Section : Type 0 where
  goes : Barrier → Section
  stays fails_assertion : Section

abbrev pub set_thread : ℕ → BarrierThread → Barrier → Barrier
set_thread i w bar = record bar { threads = update bar.threads i w }

-- `Cond_Broadcast`.
abbrev pub roused : BarrierThread → BarrierThread
roused (asleep e) = awake e
roused w = w

-- The test of the loop around `Cond_Wait`.
abbrev pub await : (i epoch : ℕ) → Barrier → Section
await i epoch bar = goes (set_thread i (if epoch == bar.epoch then asleep epoch else outside) bar)

-- From the lock to the loop, for a thread that calls `BarrierSync`.
abbrev pub arrive : (n : ℕ) → Barrier → Barrier
arrive n bar =
    let count = (bar.count + 1) % 2 ^ 32 in
    if count == n
    then record {
      count = 0;
      epoch = (bar.epoch + 1) % 2 ^ 32;
      threads = λ k. roused (bar.threads k);
    }
    else record bar { count = count }

abbrev pub run_section : (n i : ℕ) → BarrierThread → Barrier → Section
run_section n i outside bar =
    if not (ltb 0 n) || not (ltb bar.count n)
    then fails_assertion
    else await i bar.epoch (arrive n bar)
run_section n i (asleep e) bar = stays
run_section n i (awake e) bar = await i e bar

unfoldable pub barrier_sync : (n i : ℕ) → Barrier → Section
barrier_sync n i bar = run_section n i (bar.threads i) bar

-- `BARRIER_INIT`.
abbrev pub barrier_init : Barrier
barrier_init = record { count = 0; epoch = 0; threads = λ k. outside }

-- The states that so many sections of the first `size` threads lead to.
pub data Reached (n size : ℕ) : ℕ → Barrier → Type 0 where
  start : Reached n size 0 barrier_init
  next :
      {m : ℕ} {bar bar' : Barrier} (i : ℕ)
      → i < size
      → Reached n size m bar
      → barrier_sync n i bar ≡ goes bar'
      → Reached n size (suc m) bar'
