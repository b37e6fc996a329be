-- ===== src/KernelLock/Tests.antt =====
-- The kernel lock taken by one thread and given back.
use tiny_os_project.Prelude.{ℕ, ◌+◌, ◌≡◌, refl, false, [], ◌∷◌, length}
use tiny_os_project.Sched.Tests.{three, core_1}
use tiny_os_project.Cond.{CondVar}
use tiny_os_project.KernelLock.{KernelLock, kernel_lock}
use tiny_os_project.KernelLock.Exclusion.{Reached, start, next, enters, kernel_lock_exclusive}

abbrev no_waiters : CondVar
no_waiters = record {
  waiters = λ w. record { thread = 0; signalled = false; removed = false };
  waitset = [];
  sched = three;
}

abbrev free_lock : KernelLock
free_lock = record { kernel_sem = 1; kernel_sem_cv = no_waiters }

abbrev held_lock : KernelLock
held_lock = record { kernel_sem = 0; kernel_sem_cv = no_waiters }

held-Reached : Reached held_lock (1 ∷ [])
unfolding kernel_lock
held-Reached =
    next free_lock [] held_lock (1 ∷ []) (start no_waiters)
      (enters 9 0 core_1 free_lock held_lock [] refl)

kernel_lock_exclusive_example : held_lock.kernel_sem + length {A = ℕ} (1 ∷ []) ≡ 1
kernel_lock_exclusive_example = kernel_lock_exclusive held-Reached
