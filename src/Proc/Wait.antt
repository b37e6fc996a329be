-- ===== src/Proc/Wait.antt =====
-- kernel_proc.c, `sys_WaitChild`. A call stops at `kernel_wait` on the `child_exit` of the caller, and is
-- cut there: what runs when the thread wakes up is a function of its own.
pub mod Outcome
pub mod Reap
use tiny_os_project.Prelude.{
  ℕ, zero, Bool, true, false, not, Option, none, some, List, [], ◌∷◌, ◌==◌, if◌then◌else◌, update,
}
use tiny_os_project.Prelude.Int.{ℤ, pos, negsuc, minus_one, in_range, to_nat}
use tiny_os_project.Sched.{remove}
use tiny_os_project.Proc.{max_proc, Pcb, Procs, is_alive, set_pcb, get_pcb, get_pid, release_pcb}

-- `child->parent == parent`
abbrev pub has_parent : ℕ → Option ℕ → Bool
has_parent q none = false
has_parent q (some r) = q == r

-- Asleep, or back with the pid and the value stored through `status`.
pub data Waited (W : Type 0) : Type 0 where
  sleeps : Procs W → Waited W
  returns : ℤ → Option ℤ → Procs W → Waited W

module _ {W : Type 0} where
  -- The removal of a process from the two lists of its parent.
  abbrev pub leave : (q p : ℕ) → Procs W → Procs W
  leave q p s =
      set_pcb q
        (record (s.pcbs q) {
          children_list = remove p (s.pcbs q).children_list;
          exited_list = remove p (s.pcbs q).exited_list;
        })
        s

  abbrev pub leave_parent : Option ℕ → ℕ → Procs W → Procs W
  leave_parent none p s = s
  leave_parent (some q) p s = leave q p s

  -- `status` says whether the caller's pointer is not NULL.
  pub cleanup_zombie : (status : Bool) → ℕ → Procs W → Option ℤ × Procs W
  cleanup_zombie status p s = (
    if status then some (s.pcbs p).exitval else none,
    release_pcb p (leave_parent (s.pcbs p).parent p s),
  )

  abbrev pub reaped : ℕ → Option ℤ × Procs W → Waited W
  reaped p (status, s) = returns (get_pid (some p)) status s

  -- `wait_for_specific_child` from the test of its loop on.
  pub wait_specific_resume : (status : Bool) → (child : ℕ) → Procs W → Waited W
  unfolding cleanup_zombie
  wait_specific_resume status child s =
      if is_alive (s.pcbs child).pstate
      then sleeps s
      else reaped child (cleanup_zombie status child s)

  pub wait_for_specific_child : (cur : ℕ) → ℤ → (status : Bool) → Procs W → Waited W
  unfolding get_pcb wait_specific_resume
  wait_for_specific_child cur cpid status s =
      if not (in_range max_proc cpid)
      then returns minus_one none s
      else elim (get_pcb (to_nat cpid) s) [
        | none ↦ returns minus_one none s
        | some child ↦
            if has_parent cur (s.pcbs child).parent
            then wait_specific_resume status child s
            else returns minus_one none s
      ]

  -- `wait_for_any_child`, which runs from its start when the thread wakes up.
  pub wait_for_any_child : (cur : ℕ) → (status : Bool) → Procs W → Waited W
  unfolding cleanup_zombie
  wait_for_any_child cur status s = elim (s.pcbs cur).children_list [
    | [] ↦ returns minus_one none s
    | _ ∷ _ ↦ elim (s.pcbs cur).exited_list [
      | [] ↦ sleeps s
      | child ∷ _ ↦ reaped child (cleanup_zombie status child s)
    ]
  ]

  pub sys_wait_child : (cur : ℕ) → ℤ → (status : Bool) → Procs W → Waited W
  unfolding wait_for_any_child wait_for_specific_child
  sys_wait_child cur (negsuc zero) status s = wait_for_any_child cur status s
  sys_wait_child cur cpid status s = wait_for_specific_child cur cpid status s
