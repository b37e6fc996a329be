-- ===== src/Proc/Wait/Reap.antt =====
-- What waiting for a child does to the tree of the processes.
use tiny_os_project.Prelude.{
  ℕ, suc, ◌+◌, ◌-◌, ◌%◌, ◌^◌, ◌<◌, ◌≡◌, ◌≢◌, refl, Bool, true, false, not, ◌&&◌, none, some, List,
  ◌∷◌, ltb, if◌then◌else◌, arith, count, ap, ℕ_discrete, lt→ltb,
}
use tiny_os_project.Sched.Queues.{count-remove}
use tiny_os_project.Proc.{max_proc, Procs, free, zombie, is_free, is_alive, is_zombie, release_pcb}
use tiny_os_project.Proc.Wait.{has_parent, leave_parent, cleanup_zombie}
use tiny_os_project.Proc.Forest.{
  used_at, used_below, used_below_bound, used_below-change, Chain, Chain-congr, IsTree,
}

module _ {W : Type 0} {unused : List ℕ} {s : Procs W} (p q : ℕ) (dead : (s.pcbs p).pstate ≡ zombie)
    (mine : (s.pcbs p).parent ≡ some q) (v : IsTree unused s) where
  used : count p unused ≡ 0
  used = ground (arith, v.unused_once p, dead)

  after : Procs W
  after = release_pcb p (leave_parent (some q) p s)

  after_pstate : (u : ℕ) → u ≢ p → (after.pcbs u).pstate ≡ (s.pcbs u).pstate
  unfolding after
  after_pstate u n = ground (arith, n)

  after_parent : (u : ℕ) → u ≢ p → (after.pcbs u).parent ≡ (s.pcbs u).parent
  unfolding after
  after_parent u n = ground (arith, n)

  after_free : ((after.pcbs p).pstate ≡ free) × ((after.pcbs p).parent ≡ s.pcb_freelist)
  unfolding after
  after_free = ground arith

  listed_once :
      (u : ℕ)
      → count u (p ∷ unused) ≡ (if is_free (after.pcbs u).pstate && ltb u max_proc then 1 else 0)
  listed_once u = elim (ℕ_discrete u p) [
    | yes e ↦
        let small : ltb p max_proc ≡ true = lt→ltb p max_proc (v.small p (ground (arith, dead))) in
        rw (e, after_free.0, small) (ground (arith, used))
    | no n ↦ rw (after_pstate u n) (ground (arith, n, v.unused_once u))
  ]

  after_counts :
      (after.process_count ≡ (s.process_count + (2 ^ 32 - 1)) % 2 ^ 32)
      × (after.pcb_freelist ≡ some p)
  unfolding after
  after_counts = (refl, refl)

  after_count : after.process_count ≡ used_below max_proc after.pcbs
  after_count =
      let change =
        used_below-change max_proc p s.pcbs after.pcbs (v.small p (ground (arith, dead)))
          after_pstate in
      let bound = used_below_bound max_proc s.pcbs in
      let was : used_at (s.pcbs p) ≡ 1 = rw dead in
      let is : used_at (after.pcbs p) ≡ 0 = rw after_free.0 in
      omega (arith, change, bound, was, is, v.counted, after_counts.0)

  after-Chain : Chain after.pcbs after.pcb_freelist (p ∷ unused)
  after-Chain = rw after_counts.1 (
    refl,
    rw after_free.1 (
        Chain-congr s.pcbs after.pcbs s.pcb_freelist unused
          (λ u i. after_parent u (λ e. omega (arith, used, ap (λ n. count n unused) e))) v.chain),
  )

  parent_alive : is_alive (s.pcbs q).pstate ≡ true
  parent_alive = v.parents p q (ground (arith, dead, mine))

  other : p ≢ q
  other e = ground (arith, e, dead, parent_alive)

  after_children :
      (u r : ℕ)
      → count u (after.pcbs r).children_list ≡ (
          if not (is_free (after.pcbs u).pstate) && has_parent r (after.pcbs u).parent
          then 1
          else 0)
  unfolding after
  after_children u r = ground (
    arith,
    v.children u r,
    v.children p r,
    count-remove u p (s.pcbs q).children_list,
    dead,
    mine,
    other,
  )

  after_exited :
      (u r : ℕ)
      → count u (after.pcbs r).exited_list
        ≡ (if is_zombie (after.pcbs u).pstate && has_parent r (after.pcbs u).parent then 1 else 0)
  unfolding after
  after_exited u r = ground (
    arith,
    v.exited u r,
    v.exited p r,
    count-remove u p (s.pcbs q).exited_list,
    dead,
    mine,
    other,
  )

  after_parents :
      (u r : ℕ)
      → not (is_free (after.pcbs u).pstate) && has_parent r (after.pcbs u).parent ≡ true
      → is_alive (after.pcbs r).pstate ≡ true
  unfolding after
  after_parents u r h = ground (arith, v.parents u r, dead, mine, h)

  after_small : (u : ℕ) → is_free (after.pcbs u).pstate ≡ false → u < max_proc
  unfolding after
  after_small u h = v.small u (ground (arith, h))

  after_apart :
      (u : ℕ) → not (is_free (after.pcbs u).pstate) && has_parent u (after.pcbs u).parent ≡ false
  unfolding after
  after_apart u = ground (arith, v.apart u)

  after_root : is_free (after.pcbs 1).pstate ≡ false → (after.pcbs 1).parent ≡ none
  unfolding after
  after_root h = ground (arith, v.root, h)

  after-IsTree : IsTree (p ∷ unused) after
  after-IsTree = record {
    chain = after-Chain;
    unused_once = listed_once;
    counted = after_count;
    children = after_children;
    exited = after_exited;
    parents = after_parents;
    small = after_small;
    apart = after_apart;
    root = after_root;
  }

  -- Cleaning up a zombie child puts its block back in the free list, and takes it out of the tree.
  pub cleanup_zombie-IsTree : (status : Bool) → IsTree (p ∷ unused) (cleanup_zombie status p s).1
  unfolding cleanup_zombie after
  cleanup_zombie-IsTree status = rw mine after-IsTree

  pub cleanup_zombie_count :
      (status : Bool) → suc (cleanup_zombie status p s).1.process_count ≡ s.process_count
  unfolding cleanup_zombie after
  cleanup_zombie_count status =
      let change =
        used_below-change max_proc p s.pcbs after.pcbs (v.small p (ground (arith, dead)))
          after_pstate in
      let was : used_at (s.pcbs p) ≡ 1 = rw dead in
      let is : used_at (after.pcbs p) ≡ 0 = rw after_free.0 in
      rw mine (omega (arith, change, was, is, v.counted, after_count))
