-- ===== src/Proc/Exit/Last.antt =====
-- `sys_ThreadExit` as a whole, on the tree of the processes.
use tiny_os_project.Prelude.{
  ℕ, ◌≡◌, ◌≢◌, refl, inl, inr, Bool, true, false, not, ◌&&◌, none, some, List, [], ltb, ◌==◌,
  if◌then◌else◌, arith, count, ◌∙◌, sym, ap, Bool-cases, Option-cases,
}
use tiny_os_project.Prelude.Int.{ℤ}
use tiny_os_project.Streams.{Driver}
use tiny_os_project.Proc.{Pcb, Procs, max_proc, zombie, alive, is_free, is_zero, decrement}
use tiny_os_project.Proc.Wait.{has_parent}
use tiny_os_project.Proc.Forest.{IsTree, Chain-congr, IsTree-congr}
use tiny_os_project.Proc.Exit.{hand_over, cleanup_process, sys_thread_exit}
use tiny_os_project.Proc.Exit.Reparent.{Handed, hand_over-Handed, hand_over-Rest}
use tiny_os_project.Proc.Exit.Depart.{Departed, used_below-used, Departed-IsTree}
use tiny_os_project.Proc.Exit.Ending.{
  Cleaned, cleanup_process-Cleaned, cleanup_process_rest, counted_down, counted_down-SameTree,
  counted_down_lem, exit_lem,
}

-- What the exit of a thread does to the table: `last` says whether it is the last one of `cur`.
pub record Exited (last : Bool) (cur : ℕ) (f g : ℕ → Pcb) : Type 0 where
  pub pstate : (u : ℕ) → (g u).pstate ≡ (if last && u == cur then zombie else (f u).pstate)
  pub parent :
      (u : ℕ)
      → (g u).parent ≡ (
          if last && (not (is_free (f u).pstate) && has_parent cur (f u).parent)
          then some 1
          else (f u).parent)

module _ {W : Type 0} (d : Driver W) where
  leave_all :
      (cur q : ℕ) (s : Procs W)
      → Handed cur q s.pcbs (hand_over cur s).1.pcbs
      → Departed cur q s.pcbs (cleanup_process d cur (hand_over cur s).1).pcbs
  leave_all cur q s h =
      let c = cleanup_process-Cleaned d cur (hand_over cur s).1 in
      record {
        pstate = λ u. c.pstate u ∙ rw (h.pstate u) refl;
        parent = λ u. c.parent u ∙ h.parent u;
        children = λ u r. ap (count u) (c.children r) ∙ h.children u r;
        exited = λ u r. ap (count u) (c.exited r) ∙ h.exited u r;
      }

  -- The exit of the last thread of another process than 1.
  leave-IsTree :
      {unused : List ℕ} {s : Procs W} (cur q : ℕ)
      → IsTree unused s
      → cur ≢ 1
      → (s.pcbs cur).pstate ≡ alive
      → (s.pcbs 1).pstate ≡ alive
      → (s.pcbs cur).parent ≡ some q
      → let s' = cleanup_process d cur (hand_over cur s).1 in
        IsTree unused s' × Departed cur q s.pcbs s'.pcbs
  leave-IsTree {s = s} cur q v n live init mine =
      let apart : q ≢ cur = λ e. ground (arith, v.apart cur, live, mine, e) in
      let childless : count cur (s.pcbs cur).children_list ≡ 0 =
        ground (arith, v.children cur cur, v.apart cur) in
      let c = leave_all cur q s (hand_over-Handed cur q s n apart mine childless) in
      let (f, k) = hand_over-Rest cur s in
      let (f', k') = cleanup_process_rest d cur (hand_over cur s).1 in
      (Departed-IsTree cur q n live init mine c (f' ∙ f) (k' ∙ k) v, c)

module _ {W : Type 0} {unused : List ℕ} {s : Procs W} (s' : Procs W)
    (live : (s.pcbs 1).pstate ≡ alive) (childless : (s.pcbs 1).children_list ≡ [])
    (c : Cleaned 1 s.pcbs s'.pcbs) (e : s'.pcb_freelist ≡ s.pcb_freelist)
    (k : s'.process_count ≡ s.process_count) (v : IsTree unused s) where
  root_lem : (s.pcbs 1).parent ≡ none
  root_lem = v.root (ground (arith, live))

  free_lem : (u : ℕ) → is_free (s'.pcbs u).pstate ≡ is_free (s.pcbs u).pstate
  free_lem u = ground (arith, c.pstate u, live)

  no_child : (u : ℕ) → not (is_free (s.pcbs u).pstate) && has_parent 1 (s.pcbs u).parent ≡ false
  no_child u = ground (arith, v.children u 1, childless)

  -- The exit of the process 1, that has no children.
  root-IsTree : IsTree unused s'
  root-IsTree = record {
    chain = rw e (Chain-congr s.pcbs s'.pcbs s.pcb_freelist unused (λ u i. c.parent u) v.chain);
    unused_once = λ u. rw (free_lem u) (v.unused_once u);
    counted = k ∙ (v.counted ∙ sym (used_below-used max_proc s.pcbs s'.pcbs free_lem));
    children = λ u r. rw (c.children r, free_lem u, c.parent u) (v.children u r);
    exited = λ u r.
        rw (c.exited r, c.parent u) (ground (arith, v.exited u r, c.pstate u, root_lem, live));
    parents =
        λ u r h. ground (arith, h, free_lem u, c.parent u, no_child u, v.parents u r, c.pstate r);
    small = λ u h. v.small u (sym (free_lem u) ∙ h);
    apart = λ u. rw (free_lem u, c.parent u) (v.apart u);
    root = λ h. c.parent 1 ∙ root_lem;
  }

Departed-Exited :
    (cur q : ℕ) (f g : ℕ → Pcb)
    → ((u : ℕ)
        → ltb 0 (count u (f cur).children_list)
          ≡ not (is_free (f u).pstate) && has_parent cur (f u).parent)
    → Departed cur q f g
    → Exited true cur f g
Departed-Exited cur q f g child d = record {
  pstate = λ u. d.pstate u;
  parent = λ u. d.parent u ∙ rw (child u) refl;
}

last_root :
    {W : Type 0} (d : Driver W) {unused : List ℕ} {s : Procs W}
    → IsTree unused s
    → (s.pcbs 1).pstate ≡ alive
    → (s.pcbs 1).children_list ≡ []
    → let s' = cleanup_process d 1 s in IsTree unused s' × Exited true 1 s.pcbs s'.pcbs
last_root d {s = s} v init childless =
    let c = cleanup_process-Cleaned d 1 s in
    let (f, k) = cleanup_process_rest d 1 s in
    (
      root-IsTree (cleanup_process d 1 s) init childless c f k v,
      record {
        pstate = λ u. c.pstate u;
        parent =
            λ u. c.parent u ∙ rw (no_child (cleanup_process d 1 s) init childless c f k v u) refl;
      },
    )

module _ {W : Type 0} (d : Driver W) {unused : List ℕ} {s : Procs W} (cur : ℕ) (v : IsTree unused s)
    (live : (s.pcbs cur).pstate ≡ alive) where
  last_other :
      (q : ℕ)
      → cur ≢ 1
      → (s.pcbs 1).pstate ≡ alive
      → (s.pcbs cur).parent ≡ some q
      → let s' = cleanup_process d cur (hand_over cur s).1 in
        IsTree unused s' × Exited true cur s.pcbs s'.pcbs
  last_other q n init mine =
      let (a, b) = leave-IsTree d cur q v n live init mine in
      (a, Departed-Exited cur q s.pcbs _ (λ u. ground (arith, v.children u cur)) b)

  last_lem :
      (b : Bool)
      → (s.pcbs 1).pstate ≡ alive
      → (cur ≡ 1 → (s.pcbs 1).children_list ≡ [])
      → (cur ≢ 1 → (s.pcbs cur).parent ≢ none)
      → let s' =
          if b then cleanup_process d cur (if cur == 1 then s else (hand_over cur s).1) else s in
        IsTree unused s' × Exited b cur s.pcbs s'.pcbs
  last_lem false init childless child = (v, record { pstate = λ u. refl; parent = λ u. refl })
  last_lem true init childless child = elim (Bool-cases (cur == 1)) [
    | inl e ↦
        let root : cur ≡ 1 = ground (arith, e) in rw root (last_root d v init (childless root))
    | inr e ↦ elim (Option-cases (s.pcbs cur).parent) [
      | inl n ↦ absurd (child (λ c. ground (arith, c, e)) n)
      | inr (q, mine) ↦ rw e (last_other q (λ c. ground (arith, c, e)) init mine)
    ]
  ]

-- On a table whose tree is right, where the process and the process 1 are alive, the process has a
-- parent or is the process 1, and the process 1 has no children when it exits itself:
-- `sys_ThreadExit` keeps the tree right. The exit of the last thread makes the process a zombie and
-- the process 1 the parent of its children; no other state and no other parent changes.
pub sys_thread_exit-IsTree :
    {W : Type 0} {unused : List ℕ} {s : Procs W} (d : Driver W) (cur t : ℕ) (exitval : ℤ)
    → IsTree unused s
    → (s.pcbs cur).pstate ≡ alive
    → (s.pcbs 1).pstate ≡ alive
    → (cur ≡ 1 → (s.pcbs 1).children_list ≡ [])
    → (cur ≢ 1 → (s.pcbs cur).parent ≢ none)
    → let s' = (sys_thread_exit d cur t exitval s).1 in
      IsTree unused s' × Exited (is_zero (decrement (s.pcbs cur).thread_count)) cur s.pcbs s'.pcbs
sys_thread_exit-IsTree {s = s} d cur t exitval v live init childless child =
    let s3 = counted_down cur t exitval s in
    let same = counted_down-SameTree cur t exitval s in
    let (f, k, m) = counted_down_lem cur t exitval s in
    let (a, b) =
      last_lem d cur (IsTree-congr same f k v) (same.pstate cur ∙ live)
        (is_zero (s3.pcbs cur).thread_count) (same.pstate 1 ∙ init)
        (λ e. same.children 1 ∙ childless e) (λ n e. child n (sym (same.parent cur) ∙ e)) in
    rw (exit_lem d cur t exitval s) (
      a,
      record {
        pstate = λ u. b.pstate u ∙ rw (m, same.pstate u) refl;
        parent = λ u. b.parent u ∙ rw (m, same.pstate u, same.parent u) refl;
      },
    )
