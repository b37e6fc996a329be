-- ===== src/KernelLock/Exclusion.antt =====
-- Runs of the kernel lock: the threads that hold it, over calls by any threads in any order.
use tiny_os_project.Prelude.{
  ℕ, ◌+◌, ◌≡◌, ◌≤◌, refl, arith, true, false, List, [], ◌∷◌, count, length,
}
use tiny_os_project.Sched.{Ccb, ThreadState, remove}
use tiny_os_project.Cond.{CondVar}
use tiny_os_project.KernelLock.{
  KernelLock, kernel_lock, kernel_unlock, kernel_wait_start, kernel_sleep,
}
use tiny_os_project.Sched.Queues.{length-remove}

-- One call by the thread of a core, or a step of the condition variables or the scheduler that is none
-- of the lock's. Only a thread that holds the lock gives it up.
pub data Step : KernelLock → List ℕ → KernelLock → List ℕ → Type 0 where
  enters :
      (w now : ℕ) (core : Ccb) (k k' : KernelLock) (holders : List ℕ)
      → kernel_lock w now core k ≡ (true, k')
      → Step k holders k' (core.current_thread ∷ holders)
  queues :
      (w now : ℕ) (core : Ccb) (k k' : KernelLock) (holders : List ℕ)
      → kernel_lock w now core k ≡ (false, k')
      → Step k holders k' holders
  leaves :
      (t : ℕ) (k : KernelLock) (holders : List ℕ)
      → 1 ≤ count t holders
      → Step k holders (kernel_unlock k) (remove t holders)
  waits :
      (w timeout now : ℕ) (core : Ccb) (waitset : List ℕ) (k : KernelLock) (holders : List ℕ)
      → 1 ≤ count core.current_thread holders
      → Step k holders
          (kernel_wait_start w timeout now core waitset k).1
          (remove core.current_thread holders)
  sleeps :
      (state : ThreadState) (now : ℕ) (core : Ccb) (k : KernelLock) (holders : List ℕ)
      → 1 ≤ count core.current_thread holders
      → Step k holders (kernel_sleep state now core k) (remove core.current_thread holders)
  elsewhere :
      (k : KernelLock) (c : CondVar) (holders : List ℕ)
      → Step k holders (record k { kernel_sem_cv = c }) holders

-- What a run reaches from the start, where the semaphore is 1 and nobody holds the lock.
pub data Reached : KernelLock → List ℕ → Type 0 where
  start : (c : CondVar) → Reached (record { kernel_sem = 1; kernel_sem_cv = c }) []
  next :
      (k : KernelLock) (holders : List ℕ) (k' : KernelLock) (holders' : List ℕ)
      → Reached k holders
      → Step k holders k' holders'
      → Reached k' holders'

entered :
    (w now : ℕ) (core : Ccb) (k k' : KernelLock)
    → kernel_lock w now core k ≡ (true, k')
    → k.kernel_sem ≡ k'.kernel_sem + 1
unfolding kernel_lock
entered w now core k k' e = ground arith

queued :
    (w now : ℕ) (core : Ccb) (k k' : KernelLock)
    → kernel_lock w now core k ≡ (false, k')
    → k.kernel_sem ≡ k'.kernel_sem
unfolding kernel_lock
queued w now core k k' e = ground arith

Step-balance :
    {k : KernelLock} {holders : List ℕ} {k' : KernelLock} {holders' : List ℕ}
    → Step k holders k' holders'
    → k.kernel_sem + length holders ≡ k'.kernel_sem + length holders'
unfolding kernel_unlock kernel_wait_start kernel_sleep
Step-balance (enters w now core k k' hs e) = omega (arith, entered w now core k k' e)
Step-balance (queues w now core k k' hs e) = omega (arith, queued w now core k k' e)
Step-balance (leaves t k hs h) = omega (arith, length-remove t hs h)
Step-balance (waits w timeout now core waitset k hs h) =
    omega (arith, length-remove core.current_thread hs h)
Step-balance (sleeps state now core k hs h) = omega (arith, length-remove core.current_thread hs h)
Step-balance (elsewhere k c hs) = refl

-- In every run from the start, by any threads in any order, in which only a thread that holds the
-- kernel lock gives it up, the semaphore and the number of threads that hold the lock are 1 in sum;
-- so at most one thread holds it, and while one does every other that asks must wait.
pub kernel_lock_exclusive :
    {k : KernelLock} {holders : List ℕ} → Reached k holders → k.kernel_sem + length holders ≡ 1
kernel_lock_exclusive (start c) = refl
kernel_lock_exclusive (next k hs k' hs' r s) =
    omega (arith, kernel_lock_exclusive r, Step-balance s)
