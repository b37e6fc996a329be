-- ===== src/Proc/Exit.antt =====
-- kernel_threads.c, `sys_ThreadExit`, and kernel_proc.c, `sys_Exit`, up to the final `kernel_sleep`.
pub mod Reparent
pub mod Depart
pub mod Ending
pub mod Last
pub mod Children
pub mod Files
use tiny_os_project.Prelude.{
  ℕ, zero, suc, ◌+◌, Bool, true, false, not, Option, none, some, List, [], ◌∷◌, ◌++◌, ◌==◌,
  if◌then◌else◌, update, set,
}
use tiny_os_project.Prelude.Int.{ℤ, pos, negsuc, minus_one}
use tiny_os_project.Streams.{Kernel, Driver, max_fileid, fid_entry, fcb_decref}
use tiny_os_project.Proc.{
  Pcb, Ptcb, Procs, zombie, set_pcb, set_ptcb, decrement, is_zero, files_of, put_files,
}
use tiny_os_project.Proc.Wait.{Waited, wait_for_any_child}
use tiny_os_project.Proc.Wait
use tiny_os_project.Proc.Threads.{Announce, exit_cv, child_exit}

module _ {W : Type 0} where
  -- The loop that gives the children of `cur` to the process 1, over the list of those left. The kernel
  -- takes the block of the process 1 to be in use.
  pub reparent_loop : List ℕ → (cur : ℕ) → Procs W → Procs W
  reparent_loop [] cur s = s
  reparent_loop (child ∷ rest) cur s =
      let s1 = set_pcb cur (record (s.pcbs cur) { children_list = rest }) s in
      let s2 = set_pcb child (record (s1.pcbs child) { parent = some 1 }) s1 in
      let s3 =
        set_pcb 1 (record (s2.pcbs 1) { children_list = child ∷ (s2.pcbs 1).children_list }) s2 in
      reparent_loop rest cur s3

  -- The exited children follow, and the process 1 is told.
  abbrev pub bequeath : List ℕ → (cur : ℕ) → Procs W → List Announce × Procs W
  bequeath [] cur s = ([], s)
  bequeath (p ∷ l) cur s =
      let s1 = set_pcb 1 (record (s.pcbs 1) { exited_list = (s.pcbs 1).exited_list ++ p ∷ l }) s in
      (child_exit 1 ∷ [], set_pcb cur (record (s1.pcbs cur) { exited_list = [] }) s1)

  -- The process joins the exited children of its parent. The kernel follows the pointer unchecked: only
  -- the processes 0 and 1 have no parent, and neither comes here.
  abbrev pub tell_parent : Option ℕ → (cur : ℕ) → Procs W → List Announce × Procs W
  tell_parent none cur s = ([], s)
  tell_parent (some q) cur s = (
    child_exit q ∷ [],
    set_pcb q (record (s.pcbs q) { exited_list = cur ∷ (s.pcbs q).exited_list }) s,
  )

  pub hand_over : (cur : ℕ) → Procs W → List Announce × Procs W
  unfolding reparent_loop
  hand_over cur s =
      let s1 = reparent_loop (s.pcbs cur).children_list cur s in
      let (told, s2) = bequeath (s1.pcbs cur).exited_list cur s1 in
      let (told', s3) = tell_parent (s2.pcbs cur).parent cur s2 in (told ++ told', s3)

module _ {W : Type 0} (d : Driver W) where
  -- The loop that closes the file identifiers, with `left` for `MAX_FILEID - i`.
  pub close_all : (left i : ℕ) → Kernel W → Kernel W
  close_all zero i k = k
  close_all (suc left) i k = elim (fid_entry k.fidt i) [
    | none ↦ close_all left (i + 1) k
    | some f ↦
        let k1 = (fcb_decref d f k).1 in
        close_all left (i + 1) (record k1 { fidt = set k1.fidt i none })
  ]

  -- What is left of the process: its arguments, streams and threads go, and it is a zombie.
  pub cleanup_process : (cur : ℕ) → Procs W → Procs W
  unfolding close_all
  cleanup_process cur s =
      let s1 = set_pcb cur (record (s.pcbs cur) { args = none }) s in
      let s2 = put_files cur (close_all max_fileid 0 (files_of cur s1)) s1 in
      set_pcb cur (record (s2.pcbs cur) { ptcb_list = []; main_thread = none; pstate = zombie }) s2

  -- `t` is `cur_thread()`. Its `PTCB` announces the exit twice.
  pub sys_thread_exit : (cur t : ℕ) → (exitval : ℤ) → Procs W → List Announce × Procs W
  unfolding hand_over cleanup_process
  sys_thread_exit cur t exitval s =
      let a = s.owner_ptcb t in
      let s1 = set_ptcb a (record (s.ptcbs a) { exitval = exitval }) s in
      let s2 =
        set_pcb cur (record (s1.pcbs cur) { thread_count = decrement (s1.pcbs cur).thread_count })
          s1 in
      let s3 =
        set_ptcb a
          (record (s2.ptcbs a) { refcount = decrement (s2.ptcbs a).refcount; exited = true }) s2 in
      let told = exit_cv a ∷ exit_cv a ∷ [] in
      if is_zero (s3.pcbs cur).thread_count
      then (let (told', s4) = if cur == 1 then ([], s3) else hand_over cur s3 in
          (told ++ told', cleanup_process cur s4))
      else (told, s3)

-- Where `sys_Exit` stands: asleep in its wait for the children of the process 1, or at the exit of its
-- thread.
pub data Exiting (W : Type 0) : Type 0 where
  sleeps exits : Procs W → Exiting W

module _ {W : Type 0} where
  abbrev pub set_exitval : (cur : ℕ) → ℤ → Procs W → Procs W
  set_exitval cur exitval s = set_pcb cur (record (s.pcbs cur) { exitval = exitval }) s

  -- The loop in which the process 1 waits for its children, on fuel, and the store behind it. `none`: the
  -- fuel ran out.
  pub reap_loop : (fuel cur : ℕ) → ℤ → Procs W → Option (Exiting W)
  reap_loop zero cur exitval s = none
  reap_loop (suc fuel) cur exitval s = elim (wait_for_any_child cur false s) [
    | Wait.sleeps s' ↦ some (sleeps s')
    | Wait.returns (pos pid) status s' ↦ reap_loop fuel cur exitval s'
    | Wait.returns (negsuc n) status s' ↦ some (exits (set_exitval cur exitval s'))
  ]

  pub sys_exit : (fuel cur : ℕ) → (exitval : ℤ) → Procs W → Option (Exiting W)
  unfolding reap_loop
  sys_exit fuel cur exitval s =
      let s1 = set_exitval cur exitval s in
      if cur == 1 then reap_loop fuel cur exitval s1 else some (exits (set_exitval cur exitval s1))
