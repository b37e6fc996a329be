-- ===== src/Cond.antt =====
-- kernel_cc.c, condition variables. The ring of waiters of a condition variable is the list of their
-- addresses from `waitset` on, empty for NULL. Each function runs while `waitset_lock` is held; what
-- other cores do to the scheduler between two wakeups of one call is not modelled.
pub mod Broadcast
pub mod Signal
mod Tests
use tiny_os_project.Prelude.{
  ℕ, zero, suc, Bool, true, false, Option, none, some, List, [], ◌∷◌, ◌++◌, update, if◌then◌else◌,
}
use tiny_os_project.Sched.{Sched, Ccb, stopped, remove, wakeup, sleep_releasing}

-- `__cv_waiter`, less its list node.
pub record Waiter : Type 0 where
  pub thread : ℕ
  pub signalled : Bool
  pub removed : Bool

-- All waiters, on the stacks of their threads; the waiters of one condition variable; the scheduler.
pub record CondVar : Type 0 where
  pub waiters : ℕ → Waiter
  pub waitset : List ℕ
  pub sched : Sched

-- `cv_wait` up to its sleep, with the waiter at the address `w`; the mutex released is the caller's.
pub cv_wait_start : (w timeout now : ℕ) → Ccb → CondVar → CondVar
cv_wait_start w timeout now core c = record {
  waiters =
      update c.waiters w
        (record { thread = core.current_thread; signalled = false; removed = false });
  waitset = c.waitset ++ w ∷ [];
  sched = sleep_releasing stopped timeout now core c.sched;
}

-- Taking a waiter out moves `waitset` on if it was the first.
abbrev pub remove_from_ring : ℕ → CondVar → CondVar
remove_from_ring w c = record c { waitset = remove w c.waitset }

-- `cv_wait` after its sleep; the result is `signalled`.
pub cv_wait_end : ℕ → CondVar → Bool × CondVar
cv_wait_end w c =
    ((c.waiters w).signalled, if (c.waiters w).removed then c else remove_from_ring w c)

abbrev pub mark_removed : ℕ → CondVar → CondVar
mark_removed w c = record c {
  waiters = update c.waiters w (record (c.waiters w) { removed = true });
}

abbrev pub mark_signalled : ℕ → CondVar → CondVar
mark_signalled w c = record c {
  waiters = update c.waiters w (record (c.waiters w) { signalled = true });
}

-- The loop of `cv_signal`: each round takes the first waiter out of `waitset`, so the rounds are
-- those of the list.
pub signal_loop : List ℕ → CondVar → CondVar
signal_loop [] c = record c { waitset = [] }
signal_loop (w ∷ rest) c =
    let c1 = mark_removed w (record c { waitset = rest }) in
    let (ret, sched) = wakeup (c1.waiters w).thread c1.sched in
    let c2 = record c1 { sched = sched } in
    let more = signal_loop rest c2 in if ret then mark_signalled w c2 else more

pub cond_signal : CondVar → CondVar
unfolding signal_loop
cond_signal c = signal_loop c.waitset c

-- The loop of `Cond_Broadcast`, on fuel. `none`: the fuel ran out.
pub broadcast_loop : (fuel : ℕ) → CondVar → Option CondVar
unfolding cond_signal
broadcast_loop zero c = none
broadcast_loop (suc fuel) c = elim c.waitset [
  | [] ↦ some c
  | w ∷ rest ↦ broadcast_loop fuel (cond_signal c)
]
