-- ===== src/Proc.antt =====
-- kernel_proc.c and kernel_proc.h, the process table. A `PCB *` is the index of the block in `PT`, which
-- is the pid; a `PTCB *` is an address. The lists through `children_node`, `exited_node` and
-- `ptcb_list_node` are lists of pids and addresses. Each function runs under the kernel lock.
pub mod Exec
pub mod Forest
pub mod Initial
pub mod Wait
pub mod Threads
pub mod Exit
pub mod Info
pub mod Tests
use tiny_os_project.Prelude.{
  ℕ, zero, suc, ◌+◌, ◌-◌, ◌%◌, ◌^◌, Bool, true, false, Option, none, some, List, [], ◌∷◌, ◌==◌, ltb,
  if◌then◌else◌, update, replicate,
}
use tiny_os_project.Prelude.Int.{ℤ, pos, negsuc, minus_one}
use tiny_os_project.Sched.{Sched}
use tiny_os_project.Streams.{Kernel}

abbrev pub max_proc : ℕ
max_proc = 65536

pub data PidState : Type 0 where
  free alive zombie : PidState

-- `child_exit` has no content here: a broadcast is part of a call's result.
pub record Pcb : Type 0 where
  pub pstate : PidState
  pub parent : Option ℕ
  pub exitval : ℤ
  pub main_thread : Option ℕ
  pub main_task : Option ℕ
  pub argl : ℤ
  pub args : Option (List ℕ)
  pub children_list : List ℕ
  pub exited_list : List ℕ
  pub fidt : List (Option ℕ)
  pub ptcb_list : List ℕ
  pub thread_count : ℤ

pub record Ptcb : Type 0 where
  pub tcb : ℕ
  pub task : Option ℕ
  pub argl : ℤ
  pub args : Option (List ℕ)
  pub exitval : ℤ
  pub exited : Bool
  pub detached : Bool
  pub refcount : ℤ

-- `owner_ptcb` is that field of the thread blocks. Of `files` the file table of the process is not used:
-- each process has its own.
pub record Procs (W : Type 0) : Type 0 where
  pub pcbs : ℕ → Pcb
  pub pcb_freelist : Option ℕ
  pub process_count : ℕ
  pub ptcbs : ℕ → Ptcb
  pub owner_ptcb : ℕ → ℕ
  pub files : Kernel W
  pub sched : Sched

-- `++` and `--` of an `int`.
abbrev pub increment : ℤ → ℤ
increment (pos n) = pos (suc n)
increment (negsuc zero) = pos zero
increment (negsuc (suc n)) = negsuc n

abbrev pub decrement : ℤ → ℤ
decrement (pos zero) = negsuc zero
decrement (pos (suc n)) = pos n
decrement (negsuc n) = negsuc (suc n)

abbrev pub is_zero : ℤ → Bool
is_zero (pos zero) = true
is_zero _ = false

abbrev pub is_free : PidState → Bool
is_free free = true
is_free _ = false

abbrev pub is_alive : PidState → Bool
is_alive alive = true
is_alive _ = false

abbrev pub is_zombie : PidState → Bool
is_zombie zombie = true
is_zombie _ = false

abbrev pub get_pid : Option ℕ → ℤ
get_pid none = minus_one
get_pid (some p) = pos p

-- `initialize_PCB`, on what the block held.
abbrev pub initialize_pcb : Pcb → Pcb
initialize_pcb b = record b {
  pstate = free;
  argl = pos 0;
  args = none;
  fidt = replicate 16 none;
  children_list = [];
  exited_list = [];
  ptcb_list = [];
  thread_count = pos 0;
}

module _ {W : Type 0} where
  pub get_pcb : ℕ → Procs W → Option ℕ
  get_pcb pid s = if is_free (s.pcbs pid).pstate then none else some pid

  abbrev pub set_pcb : ℕ → Pcb → Procs W → Procs W
  set_pcb p b s = record s { pcbs = update s.pcbs p b }

  abbrev pub set_ptcb : ℕ → Ptcb → Procs W → Procs W
  set_ptcb a b s = record s { ptcbs = update s.ptcbs a b }

  -- The loop of `initialize_processes` that links the free blocks below `p`, from the last one down.
  pub link_free : (p : ℕ) → Procs W → Procs W
  link_free zero s = s
  link_free (suc p) s =
      link_free p (record (set_pcb p (record (s.pcbs p) { parent = s.pcb_freelist }) s) {
        pcb_freelist = some p;
      })

  -- `initialize_processes` up to its call of `Exec`.
  pub initialize_table : Procs W → Procs W
  unfolding link_free
  initialize_table s =
      let s1 = record s {
        pcbs = λ p. if ltb p max_proc then initialize_pcb (s.pcbs p) else s.pcbs p;
        pcb_freelist = none;
      } in
      record (link_free max_proc s1) { process_count = 0 }

  pub acquire_pcb : Procs W → Option ℕ × Procs W
  acquire_pcb s = elim s.pcb_freelist [
    | none ↦ (none, s)
    | some p ↦ (
      some p,
      record (set_pcb p (record (s.pcbs p) { pstate = alive }) s) {
        pcb_freelist = (s.pcbs p).parent;
        process_count = (s.process_count + 1) % 2 ^ 32;
      },
    )
  ]

  abbrev pub release_pcb : ℕ → Procs W → Procs W
  release_pcb p s =
      record (set_pcb p (record (s.pcbs p) { pstate = free; parent = s.pcb_freelist }) s) {
        pcb_freelist = some p;
        process_count = (s.process_count + (2 ^ 32 - 1)) % 2 ^ 32;
      }

  -- `new` is the address that `xmalloc` returns; `exitval` is left undefined there.
  abbrev pub acquire_ptcb : (new tcb : ℕ) → Option ℕ → ℤ → Option (List ℕ) → Procs W → Procs W
  acquire_ptcb new tcb task argl args s =
      let b : Ptcb = record {
        tcb = tcb;
        task = task;
        argl = argl;
        args = args;
        exitval = (s.ptcbs new).exitval;
        exited = false;
        detached = false;
        refcount = pos 1;
      } in
      record (set_ptcb new b s) { owner_ptcb = update s.owner_ptcb tcb new }

  -- The streams as the process `p` sees them, and the change of that view.
  abbrev pub files_of : ℕ → Procs W → Kernel W
  files_of p s = record s.files { fidt = (s.pcbs p).fidt }

  abbrev pub put_files : ℕ → Kernel W → Procs W → Procs W
  put_files p k s = record (set_pcb p (record (s.pcbs p) { fidt = k.fidt }) s) { files = k }
