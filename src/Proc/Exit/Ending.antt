-- ===== src/Proc/Exit/Ending.antt =====
-- `sys_ThreadExit` cut into its parts: the counters, what is handed over, and the cleanup.
use tiny_os_project.Prelude.{
  ℕ, ◌≡◌, refl, Bool, true, false, List, [], ◌∷◌, ◌++◌, ◌==◌, if◌then◌else◌, arith, ◌∙◌,
}
use tiny_os_project.Prelude.Int.{ℤ}
use tiny_os_project.Streams.{Driver}
use tiny_os_project.Proc.{Pcb, Procs, zombie, is_zero, decrement, set_pcb, set_ptcb}
use tiny_os_project.Proc.Threads.{Announce, exit_cv}
use tiny_os_project.Proc.Forest.{SameTree}
use tiny_os_project.Proc.Exit.{hand_over, cleanup_process, sys_thread_exit}

-- The last cleanup: `cur` becomes a zombie, and the rest of the tree is what it was.
pub record Cleaned (cur : ℕ) (f g : ℕ → Pcb) : Type 0 where
  pub pstate : (u : ℕ) → (g u).pstate ≡ (if u == cur then zombie else (f u).pstate)
  pub parent : (u : ℕ) → (g u).parent ≡ (f u).parent
  pub children : (u : ℕ) → (g u).children_list ≡ (f u).children_list
  pub exited : (u : ℕ) → (g u).exited_list ≡ (f u).exited_list

module _ {W : Type 0} (d : Driver W) where
  pub cleanup_process-Cleaned :
      (cur : ℕ) (s : Procs W) → Cleaned cur s.pcbs (cleanup_process d cur s).pcbs
  unfolding cleanup_process
  cleanup_process-Cleaned cur s = record {
    pstate = λ u. ground arith;
    parent = λ u. ground arith;
    children = λ u. ground arith;
    exited = λ u. ground arith;
  }

  pub cleanup_process_rest :
      (cur : ℕ) (s : Procs W)
      → ((cleanup_process d cur s).pcb_freelist ≡ s.pcb_freelist)
        × ((cleanup_process d cur s).process_count ≡ s.process_count)
  unfolding cleanup_process
  cleanup_process_rest cur s = (refl, refl)

-- The state before the test of the number of threads.
unfoldable pub counted_down : {W : Type 0} → (cur t : ℕ) → ℤ → Procs W → Procs W
counted_down cur t exitval s =
    let a = s.owner_ptcb t in
    let s1 = set_ptcb a (record (s.ptcbs a) { exitval = exitval }) s in
    let s2 =
      set_pcb cur (record (s1.pcbs cur) { thread_count = decrement (s1.pcbs cur).thread_count })
        s1 in
    set_ptcb a (record (s2.ptcbs a) { refcount = decrement (s2.ptcbs a).refcount; exited = true })
      s2

pub counted_down-SameTree :
    {W : Type 0} (cur t : ℕ) (e : ℤ) (s : Procs W) → SameTree s.pcbs (counted_down cur t e s).pcbs
unfolding counted_down
counted_down-SameTree cur t e s = record {
  pstate = λ u. ground arith;
  parent = λ u. ground arith;
  children = λ u. ground arith;
  exited = λ u. ground arith;
}

pub counted_down_lem :
    {W : Type 0} (cur t : ℕ) (e : ℤ) (s : Procs W)
    → ((counted_down cur t e s).pcb_freelist ≡ s.pcb_freelist)
      × ((counted_down cur t e s).process_count ≡ s.process_count)
      × (((counted_down cur t e s).pcbs cur).thread_count ≡ decrement (s.pcbs cur).thread_count)
unfolding counted_down
counted_down_lem cur t e s = (refl, refl, ground arith)

module _ {W : Type 0} (d : Driver W) where
  finish : (b c : Bool) → List Announce → (cur : ℕ) → Procs W → List Announce × Procs W
  finish b c told cur s =
      if b
      then (let (told', s4) = if c then ([], s) else hand_over cur s in
          (told ++ told', cleanup_process d cur s4))
      else (told, s)

  finish_lem :
      (b c : Bool) (told : List Announce) (cur : ℕ) (s : Procs W)
      → (finish b c told cur s).1
        ≡ (if b then cleanup_process d cur (if c then s else (hand_over cur s).1) else s)
  unfolding finish
  finish_lem true true told cur s = refl
  finish_lem true false told cur s = refl
  finish_lem false c told cur s = refl

  pub exit_lem :
      (cur t : ℕ) (e : ℤ) (s : Procs W)
      → let s3 = counted_down cur t e s in
        (sys_thread_exit d cur t e s).1 ≡ (
          if is_zero (s3.pcbs cur).thread_count
          then cleanup_process d cur (if cur == 1 then s3 else (hand_over cur s3).1)
          else s3)
  unfolding sys_thread_exit counted_down finish
  exit_lem cur t e s =
      let s3 = counted_down cur t e s in
      finish_lem (is_zero (s3.pcbs cur).thread_count) (cur == 1)
        (exit_cv (s.owner_ptcb t) ∷ exit_cv (s.owner_ptcb t) ∷ []) cur s3

  -- The exit of a thread that is not the last one.
  pub early_lem :
      (cur t : ℕ) (e : ℤ) (s : Procs W)
      → is_zero (decrement (s.pcbs cur).thread_count) ≡ false
      → (sys_thread_exit d cur t e s).1 ≡ counted_down cur t e s
  early_lem cur t e s others =
      let (f, k, m) = counted_down_lem cur t e s in
      let on : is_zero ((counted_down cur t e s).pcbs cur).thread_count ≡ false = rw m others in
      exit_lem cur t e s ∙ rw on refl
