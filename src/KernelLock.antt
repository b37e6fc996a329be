-- ===== src/KernelLock.antt =====
-- kernel_cc.c, the kernel lock: a semaphore as a monitor, with the calls that give it up to wait. Each
-- function runs while `kernel_mutex` is held, between two sleeps.
pub mod Exclusion
mod Tests
use tiny_os_project.Prelude.{ℕ, ◌+◌, ◌-◌, Bool, true, false, List, ltb, if◌then◌else◌}
use tiny_os_project.Sched.{Ccb, SchedCause, ThreadState, no_timeout, sleep_releasing}
use tiny_os_project.Cond.{CondVar, cv_wait_start, cond_signal}

-- `kernel_sem` and `kernel_sem_cv`. A thread goes on only above 0, so the counter is never negative.
pub record KernelLock : Type 0 where
  pub kernel_sem : ℕ
  pub kernel_sem_cv : CondVar

-- One round of the loop of `kernel_lock`, up to its end or to its sleep; the result says whether the
-- thread has the lock. `w` is the address of its waiter.
pub kernel_lock : (w now : ℕ) → Ccb → KernelLock → Bool × KernelLock
kernel_lock w now core k =
    if ltb 0 k.kernel_sem
    then (true, record k { kernel_sem = k.kernel_sem - 1 })
    else (false, record k { kernel_sem_cv = cv_wait_start w no_timeout now core k.kernel_sem_cv })

pub kernel_unlock : KernelLock → KernelLock
kernel_unlock k = record {
  kernel_sem = k.kernel_sem + 1;
  kernel_sem_cv = cond_signal k.kernel_sem_cv;
}

-- `kernel_wait_wchan` up to its sleep on a condition variable with the waiters `waitset`. Behind the
-- sleep it runs the loop of `kernel_lock`.
pub kernel_wait_start : (w timeout now : ℕ) → Ccb → List ℕ → KernelLock → List ℕ × KernelLock
unfolding kernel_unlock
kernel_wait_start w timeout now core waitset k =
    let k1 = kernel_unlock k in
    let c = cv_wait_start w timeout now core (record k1.kernel_sem_cv { waitset = waitset }) in
    (c.waitset, record k1 { kernel_sem_cv = record c { waitset = k1.kernel_sem_cv.waitset } })

pub kernel_sleep : ThreadState → (now : ℕ) → Ccb → KernelLock → KernelLock
unfolding kernel_unlock
kernel_sleep state now core k =
    let k1 = kernel_unlock k in
    record k1 {
      kernel_sem_cv = record k1.kernel_sem_cv {
        sched = sleep_releasing state no_timeout now core k1.kernel_sem_cv.sched;
      };
    }
