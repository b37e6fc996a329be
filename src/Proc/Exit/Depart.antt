-- ===== src/Proc/Exit/Depart.antt =====
-- `sys_ThreadExit` of the last thread, on the tree of the processes.
use tiny_os_project.Prelude.{
  ℕ, zero, suc, ◌+◌, ◌<◌, ◌≡◌, ◌≢◌, refl, Bool, true, false, not, ◌&&◌, Option, none, some, List,
  ltb, ◌==◌, if◌then◌else◌, arith, count, ◌∙◌, sym, ℕ_discrete,
}
use tiny_os_project.Proc.{
  Pcb, Procs, PidState, max_proc, free, zombie, alive, is_free, is_alive, is_zombie,
}
use tiny_os_project.Proc.Wait.{has_parent}
use tiny_os_project.Proc.Forest.{used_below, Chain, Chain-congr, IsTree}

-- The table after the process `cur` handed over and became a zombie.
pub record Departed (cur q : ℕ) (f g : ℕ → Pcb) : Type 0 where
  pub pstate : (u : ℕ) → (g u).pstate ≡ (if u == cur then zombie else (f u).pstate)
  pub parent :
      (u : ℕ)
      → (g u).parent ≡ (if ltb 0 (count u (f cur).children_list) then some 1 else (f u).parent)
  pub children :
      (u r : ℕ)
      → count u (g r).children_list ≡ (
          if r == 1
          then count u (f cur).children_list + count u (f 1).children_list
          else if r == cur
          then 0
          else count u (f r).children_list)
  pub exited :
      (u r : ℕ)
      → count u (g r).exited_list
        ≡ (if r == cur then 0 else count u (f r).exited_list)
          + ((if r == 1 then count u (f cur).exited_list else 0)
              + (if r == q && u == cur then 1 else 0))

pub used_below-used :
    (n : ℕ) (f g : ℕ → Pcb)
    → ((u : ℕ) → is_free (g u).pstate ≡ is_free (f u).pstate)
    → used_below n g ≡ used_below n f
unfolding used_below
used_below-used zero f g same = refl
used_below-used (suc n) f g same = rw (used_below-used n f g same, same n) refl

-- Who has `r` for a parent, once the children of `cur` went to the process 1.
moved_children :
    (cur r : ℕ) (b : Bool) (o : Option ℕ)
    → cur ≢ 1
    → (if r == 1
        then (if not b && has_parent cur o then 1 else 0)
          + (if not b && has_parent 1 o then 1 else 0)
        else if r == cur
        then 0
        else (if not b && has_parent r o then 1 else 0))
      ≡ (if not b && has_parent r (if not b && has_parent cur o then some 1 else o) then 1 else 0)
moved_children cur r true o n = ground arith
moved_children cur r false none n = ground arith
moved_children cur r false (some p) n = ground (arith, n)

moved_exited :
    (cur r : ℕ) (st : PidState) (o : Option ℕ)
    → cur ≢ 1
    → (if r == cur then 0 else (if is_zombie st && has_parent r o then 1 else 0))
        + (if r == 1 then (if is_zombie st && has_parent cur o then 1 else 0) else 0)
      ≡ (if is_zombie st
            && has_parent r (if not (is_free st) && has_parent cur o then some 1 else o)
          then 1
          else 0)
moved_exited cur r free o n = ground arith
moved_exited cur r alive o n = ground arith
moved_exited cur r zombie none n = ground arith
moved_exited cur r zombie (some p) n = ground (arith, n)

padded : (u cur a b : ℕ) (t : Bool) → u ≢ cur → a + (b + (if t && u == cur then 1 else 0)) ≡ a + b
padded u cur a b t m = ground (arith, m)

module _ {W : Type 0} {unused : List ℕ} {s : Procs W} {g : ℕ → Pcb} (cur q : ℕ) (n : cur ≢ 1)
    (live : (s.pcbs cur).pstate ≡ alive) (init : (s.pcbs 1).pstate ≡ alive)
    (mine : (s.pcbs cur).parent ≡ some q) (v : IsTree unused s) (d : Departed cur q s.pcbs g) where
  -- Who the children of `cur` are.
  child :
      (u : ℕ)
      → ltb 0 (count u (s.pcbs cur).children_list)
        ≡ not (is_free (s.pcbs u).pstate) && has_parent cur (s.pcbs u).parent
  child u = ground (arith, v.children u cur)

  parent_lem :
      (u : ℕ)
      → (g u).parent ≡ (
          if not (is_free (s.pcbs u).pstate) && has_parent cur (s.pcbs u).parent
          then some 1
          else (s.pcbs u).parent)
  parent_lem u = rw (sym (child u)) (d.parent u)

  free_lem : (u : ℕ) → is_free (g u).pstate ≡ is_free (s.pcbs u).pstate
  free_lem u = ground (arith, d.pstate u, live)

  departed-Chain : Chain g s.pcb_freelist unused
  departed-Chain =
      Chain-congr s.pcbs g s.pcb_freelist unused
        (λ u i. ground (arith, i, v.unused_once u, parent_lem u)) v.chain

  departed_count : used_below max_proc g ≡ used_below max_proc s.pcbs
  departed_count = used_below-used max_proc s.pcbs g free_lem

  departed_children :
      (u r : ℕ)
      → count u (g r).children_list
        ≡ (if not (is_free (g u).pstate) && has_parent r (g u).parent then 1 else 0)
  departed_children u r =
      rw
        (free_lem u, parent_lem u, d.children u r, v.children u r, v.children u cur, v.children u 1)
        (moved_children cur r (is_free (s.pcbs u).pstate) (s.pcbs u).parent n)

  gone_lem : (r : ℕ) → count cur (g r).exited_list ≡ (if r == q then 1 else 0)
  gone_lem r = ground (arith, d.exited cur r, v.exited cur r, v.exited cur cur, live)

  departed_exited :
      (u r : ℕ)
      → count u (g r).exited_list
        ≡ (if is_zombie (g u).pstate && has_parent r (g u).parent then 1 else 0)
  departed_exited u r = elim (ℕ_discrete u cur) [
    | yes e ↦
        let state : (g cur).pstate ≡ zombie = ground (arith, d.pstate cur) in
        let up : (g cur).parent ≡ some q =
          ground (arith, parent_lem cur, mine, v.apart cur, live) in
        rw (e, state, up) (gone_lem r)
    | no m ↦
        let state : (g u).pstate ≡ (s.pcbs u).pstate = ground (arith, d.pstate u, m) in
        rw (state, parent_lem u, d.exited u r, v.exited u r, v.exited u cur)
          (padded u cur _ _ (r == q) m ∙ moved_exited cur r (s.pcbs u).pstate (s.pcbs u).parent n)
  ]

  departed_parents :
      (u r : ℕ)
      → not (is_free (g u).pstate) && has_parent r (g u).parent ≡ true
      → is_alive (g r).pstate ≡ true
  departed_parents u r h =
      ground (arith, h, free_lem u, parent_lem u, d.pstate r, v.parents u r, init, n)

  departed_small : (u : ℕ) → is_free (g u).pstate ≡ false → u < max_proc
  departed_small u h = v.small u (sym (free_lem u) ∙ h)

  departed_apart : (u : ℕ) → not (is_free (g u).pstate) && has_parent u (g u).parent ≡ false
  departed_apart u = ground (arith, free_lem u, parent_lem u, v.apart u, v.root)

  departed_root : is_free (g 1).pstate ≡ false → (g 1).parent ≡ none
  departed_root h = ground (arith, h, free_lem 1, parent_lem 1, v.root)

pub Departed-IsTree :
    {W : Type 0} {unused : List ℕ} {s s' : Procs W} (cur q : ℕ)
    → cur ≢ 1
    → (s.pcbs cur).pstate ≡ alive
    → (s.pcbs 1).pstate ≡ alive
    → (s.pcbs cur).parent ≡ some q
    → Departed cur q s.pcbs s'.pcbs
    → s'.pcb_freelist ≡ s.pcb_freelist
    → s'.process_count ≡ s.process_count
    → IsTree unused s
    → IsTree unused s'
Departed-IsTree {unused = unused} {s = s} {s' = s'} cur q n live init mine d e k v = record {
  chain = rw e (departed-Chain cur q n live init mine v d);
  unused_once = λ u. rw (free_lem cur q n live init mine v d u) (v.unused_once u);
  counted = k ∙ (v.counted ∙ sym (departed_count cur q n live init mine v d));
  children = departed_children cur q n live init mine v d;
  exited = departed_exited cur q n live init mine v d;
  parents = departed_parents cur q n live init mine v d;
  small = departed_small cur q n live init mine v d;
  apart = departed_apart cur q n live init mine v d;
  root = departed_root cur q n live init mine v d;
}
