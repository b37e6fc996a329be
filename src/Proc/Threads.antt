-- ===== src/Proc/Threads.antt =====
-- kernel_threads.c, `sys_ThreadJoin` and `sys_ThreadDetach`. A `Tid_t` is the address of a `PTCB`, 0 for
-- NULL. A join stops at `kernel_wait` on the `exit_cv` of the thread, and is cut there.
pub mod Counts
pub mod Safe
use tiny_os_project.Prelude.{
  ℕ, zero, suc, Bool, true, false, not, ◌&&◌, Option, none, some, List, [], ◌∷◌, ◌==◌,
  if◌then◌else◌, update,
}
use tiny_os_project.Prelude.Int.{ℤ, pos, minus_one}
use tiny_os_project.Sched.{remove}
use tiny_os_project.Proc.{Pcb, Ptcb, Procs, set_pcb, set_ptcb, increment, decrement, is_zero}

-- `rlist_find` on the threads of a process.
abbrev pub holds : ℕ → List ℕ → Bool
holds a [] = false
holds a (b ∷ l) = if a == b then true else holds a l

pub data Joined (W : Type 0) : Type 0 where
  sleeps : Procs W → Joined W
  returns : ℤ → Option ℤ → Procs W → Joined W

-- The condition variables that a call broadcasts.
pub data Announce : Type 0 where
  exit_cv child_exit : ℕ → Announce

module _ {W : Type 0} where
  abbrev pub set_ptcb_refcount : ℕ → ℤ → Procs W → Procs W
  set_ptcb_refcount a n s = set_ptcb a (record (s.ptcbs a) { refcount = n }) s

  -- A `PTCB` with no reference leaves the list of its process, and is freed.
  abbrev pub drop_ptcb : (cur a : ℕ) → Procs W → Procs W
  drop_ptcb cur a s =
      if is_zero (s.ptcbs a).refcount
      then set_pcb cur (record (s.pcbs cur) { ptcb_list = remove a (s.pcbs cur).ptcb_list }) s
      else s

  -- `sys_ThreadJoin` from the test of its loop on.
  unfoldable pub join_resume : (cur tid : ℕ) → (exitval : Bool) → Procs W → Joined W
  join_resume cur tid exitval s =
      if not (s.ptcbs tid).exited && not (s.ptcbs tid).detached
      then sleeps s
      else let s1 = set_ptcb_refcount tid (decrement (s.ptcbs tid).refcount) s in
        if (s1.ptcbs tid).detached
        then returns minus_one none s1
        else returns (pos 0) (if exitval then some (s1.ptcbs tid).exitval else none)
            (drop_ptcb cur tid s1)

  -- `self` is `sys_ThreadSelf()`; `exitval` says whether the caller's pointer is not NULL.
  unfoldable pub sys_thread_join : (cur self tid : ℕ) → (exitval : Bool) → Procs W → Joined W
  unfolding join_resume
  sys_thread_join cur self tid exitval s =
      if tid == 0
      then returns minus_one none s
      else if not (holds tid (s.pcbs cur).ptcb_list)
      then returns minus_one none s
      else if tid == self
      then returns minus_one none s
      else if (s.ptcbs tid).detached
      then returns minus_one none s
      else join_resume cur tid exitval (set_ptcb_refcount tid (increment (s.ptcbs tid).refcount) s)

  pub sys_thread_detach : (cur tid : ℕ) → Procs W → ℤ × List Announce × Procs W
  sys_thread_detach cur tid s =
      if not (holds tid (s.pcbs cur).ptcb_list)
      then (minus_one, [], s)
      else if (s.ptcbs tid).exited
      then (minus_one, [], s)
      else (pos 0, exit_cv tid ∷ [], set_ptcb tid (record (s.ptcbs tid) { detached = true }) s)
