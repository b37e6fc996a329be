-- ===== src/Proc/Exec.antt =====
-- kernel_proc.c, `sys_Exec`, and kernel_threads.c, `sys_CreateThread`. The addresses of the new thread
-- and of its `PTCB` are arguments.
pub mod Adopt
pub mod Tree
pub mod Inherit
use tiny_os_project.Prelude.{
  ℕ, zero, suc, ◌+◌, Option, none, some, List, [], ◌∷◌, ◌++◌, ◌==◌, leb, if◌then◌else◌, update,
}
use tiny_os_project.Prelude.Int.{ℤ, pos, minus_one, to_nat}
use tiny_os_project.Sched.{spawn_thread, wakeup}
use tiny_os_project.Streams.{Kernel, fcb_incref}
use tiny_os_project.Pipe.Buffer.{slice}
use tiny_os_project.Proc.{
  Pcb, Ptcb, Procs, set_pcb, set_ptcb, increment, get_pid, acquire_pcb, acquire_ptcb, files_of,
}

-- `malloc` and `memcpy` of the arguments, `none` for NULL. With arguments, `argl` is taken not to be
-- negative.
abbrev pub copy_args : ℤ → Option (ℕ → ℕ) → Option (List ℕ)
copy_args argl none = none
copy_args argl (some args) = some (slice args 0 (to_nat argl))

module _ {W : Type 0} where
  -- The references that the loop over the file table of the parent counts.
  pub incref_all : List (Option ℕ) → Kernel W → Kernel W
  incref_all [] k = k
  incref_all (none ∷ t) k = incref_all t k
  incref_all (some f ∷ t) k = incref_all t (fcb_incref f k)

  -- The new process becomes the first child of `cur`, with the streams of `cur`.
  pub inherit : (cur p : ℕ) → Procs W → Procs W
  unfolding incref_all
  inherit cur p s =
      let s1 = set_pcb p (record (s.pcbs p) { parent = some cur }) s in
      let s2 =
        set_pcb cur (record (s1.pcbs cur) { children_list = p ∷ (s1.pcbs cur).children_list }) s1 in
      let s3 = set_pcb p (record (s2.pcbs p) { fidt = (s2.pcbs cur).fidt }) s2 in
      record s3 { files = incref_all (s2.pcbs cur).fidt s3.files }

  -- The main thread; nothing without a task.
  pub start_main : Option ℕ → (p t new : ℕ) → Procs W → Procs W
  start_main none p t new s = s
  start_main (some call) p t new s =
      let s1 =
        set_pcb p (record (s.pcbs p) { main_thread = some t })
          (record s { sched = spawn_thread t p s.sched }) in
      let s2 = acquire_ptcb new t (s1.pcbs p).main_task (s1.pcbs p).argl (s1.pcbs p).args s1 in
      let s3 =
        set_ptcb new (record (s2.ptcbs new) { refcount = increment (s2.ptcbs new).refcount })
          (record s2 { owner_ptcb = update s2.owner_ptcb t new }) in
      let b = s3.pcbs p in
      let s4 =
        set_pcb p
          (record b {
            ptcb_list = b.ptcb_list ++ new ∷ [];
            thread_count = increment b.thread_count;
          })
          s3 in
      record s4 { sched = (wakeup t s4.sched).1 }

  -- The processes with a pid up to 1 have no parent.
  abbrev pub place : (cur p : ℕ) → Procs W → Procs W
  place cur p s =
      if leb p 1 then set_pcb p (record (s.pcbs p) { parent = none }) s else inherit cur p s

  -- `sys_Exec` behind its call of `acquire_PCB`.
  pub exec_in :
      (cur : ℕ)
      → Option ℕ
      → (argl : ℤ) → Option (ℕ → ℕ)
      → (t new : ℕ) → Option ℕ × Procs W
      → ℤ × Procs W
  unfolding inherit start_main
  exec_in cur call argl args t new (none, s) = (get_pid none, s)
  exec_in cur call argl args t new (some p, s) =
      let s1 = place cur p s in
      let s2 =
        set_pcb p (record (s1.pcbs p) { main_task = call; argl = argl; args = copy_args argl args })
          s1 in
      (get_pid (some p), start_main call p t new s2)

  -- `cur` is `CURPROC`; the result is a pid, or -1 where no block is free.
  pub sys_exec :
      (cur : ℕ) → Option ℕ → (argl : ℤ) → Option (ℕ → ℕ) → (t new : ℕ) → Procs W → ℤ × Procs W
  unfolding exec_in
  sys_exec cur call argl args t new s = exec_in cur call argl args t new (acquire_pcb s)

  -- The result is the address of the new `PTCB`.
  unfoldable pub sys_create_thread :
      (cur : ℕ) → Option ℕ → (argl : ℤ) → Option (List ℕ) → (t new : ℕ) → Procs W → ℕ × Procs W
  sys_create_thread cur task argl args t new s =
      let s1 =
        acquire_ptcb new t task argl args (record s { sched = spawn_thread t cur s.sched }) in
      let b = s1.pcbs cur in
      let s2 =
        set_pcb cur
          (record b {
            ptcb_list = b.ptcb_list ++ new ∷ [];
            thread_count = increment b.thread_count;
          })
          s1 in
      (new, record s2 { sched = (wakeup t s2.sched).1 })
