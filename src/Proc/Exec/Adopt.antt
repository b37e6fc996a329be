-- ===== src/Proc/Exec/Adopt.antt =====
-- What `sys_Exec` does to the tree of the processes.
use tiny_os_project.Prelude.{
  ℕ, ◌+◌, ◌%◌, ◌^◌, ◌<◌, ◌≡◌, ◌≢◌, refl, Bool, true, false, not, ◌&&◌, Option, none, some, List,
  ◌∷◌, ltb, ◌==◌, if◌then◌else◌, arith, count, ◌∙◌, subst, ap, ℕ_discrete, ltb→lt,
}
use tiny_os_project.Proc.{max_proc, Procs, alive, is_free, is_alive, is_zombie}
use tiny_os_project.Proc.Wait.{has_parent}
use tiny_os_project.Proc.Forest.{
  used_at, used_below, used_below_bound, used_below-change, Chain, Chain-congr, IsTree,
}

-- The table after `acquire_PCB` took the block `p`, and `o` became its parent.
unfoldable pub child_of : {W : Type 0} → (o : Option ℕ) → (p : ℕ) → Procs W → Procs W
child_of o p s = record s {
  pcbs = λ u. record (s.pcbs u) {
    pstate = if u == p then alive else (s.pcbs u).pstate;
    parent = if u == p then o else (s.pcbs u).parent;
    children_list =
        if has_parent u o then p ∷ (s.pcbs u).children_list else (s.pcbs u).children_list;
  };
  pcb_freelist = (s.pcbs p).parent;
  process_count = (s.process_count + 1) % 2 ^ 32;
}

child_of_other :
    {W : Type 0} (o : Option ℕ) (p u : ℕ) (s : Procs W)
    → u ≢ p
    → (((child_of o p s).pcbs u).pstate ≡ (s.pcbs u).pstate)
      × (((child_of o p s).pcbs u).parent ≡ (s.pcbs u).parent)
unfolding child_of
child_of_other o p u s n = (ground (arith, n), ground (arith, n))

child_of_alive :
    {W : Type 0} (o : Option ℕ) (p : ℕ) (s : Procs W) → ((child_of o p s).pcbs p).pstate ≡ alive
unfolding child_of
child_of_alive o p s = ground arith

pub head_count :
    (p n : ℕ) (a b : Bool)
    → (if p == p then 1 else 0) + n ≡ (if a && b then 1 else 0)
    → (a ≡ true) × (b ≡ true) × (n ≡ 0)
head_count p n a b h = (ground (arith, h), ground (arith, h), ground (arith, h))

skipped : (u p : ℕ) → u ≢ p → (n : ℕ) → n ≡ (if u == p then 1 else 0) + n
skipped u p h n = ground (arith, h)

module _ {W : Type 0} {s : Procs W} (o : Option ℕ) (p : ℕ) (rest : List ℕ) (v : IsTree (p ∷ rest) s)
    (up : (q : ℕ) → has_parent q o ≡ true → is_alive (s.pcbs q).pstate ≡ true)
    (top : p ≡ 1 → o ≡ none) where
  unborn : (is_free (s.pcbs p).pstate ≡ true) × (p < max_proc) × (count p rest ≡ 0)
  unborn =
      let (f, small, n) =
        head_count p (count p rest) (is_free (s.pcbs p).pstate) (ltb p max_proc)
          (v.unused_once p) in
      (f, ltb→lt p max_proc small, n)

  next_free : (s.pcb_freelist ≡ some p) × Chain s.pcbs (s.pcbs p).parent rest
  next_free = head s.pcb_freelist refl v.chain
    where
      head :
          (f : Option ℕ)
          → s.pcb_freelist ≡ f
          → Chain s.pcbs f (p ∷ rest)
          → (s.pcb_freelist ≡ some p) × Chain s.pcbs (s.pcbs p).parent rest
      head none e c = absurd c
      head (some q) e (f, c) = (rw f at e, subst (λ u. Chain s.pcbs (s.pcbs u).parent rest) f c)

  born-Chain : Chain (child_of o p s).pcbs (child_of o p s).pcb_freelist rest
  unfolding child_of
  born-Chain =
      Chain-congr s.pcbs (child_of o p s).pcbs (s.pcbs p).parent rest
        (λ u i.
          (child_of_other o p u s (λ e. omega (arith, i, unborn.2, ap (λ n. count n rest) e))).1)
        next_free.1

  born_once :
      (u : ℕ)
      → count u rest ≡ (if is_free ((child_of o p s).pcbs u).pstate && ltb u max_proc then 1 else 0)
  born_once u = elim (ℕ_discrete u p) [
    | yes e ↦ rw (e, child_of_alive o p s, unborn.2) refl
    | no n ↦ rw ((child_of_other o p u s n).0) (skipped u p n (count u rest) ∙ v.unused_once u)
  ]

  born_count : (child_of o p s).process_count ≡ used_below max_proc (child_of o p s).pcbs
  unfolding child_of
  born_count =
      let change =
        used_below-change max_proc p s.pcbs (child_of o p s).pcbs unborn.1
          (λ u n. ground (arith, n)) in
      let bound = used_below_bound max_proc s.pcbs in
      let was : used_at (s.pcbs p) ≡ 0 = rw unborn.0 in
      let is : used_at ((child_of o p s).pcbs p) ≡ 1 = ground arith in
      omega (arith, change, bound, was, is, v.counted)

  stranger : (q : ℕ) → has_parent q o ≡ true → q ≢ p
  stranger q h e = ground (arith, up q h, unborn.0, e)

  born_children :
      (u r : ℕ)
      → count u ((child_of o p s).pcbs r).children_list ≡ (
          if not (is_free ((child_of o p s).pcbs u).pstate)
            && has_parent r ((child_of o p s).pcbs u).parent
          then 1
          else 0)
  unfolding child_of
  born_children u r = ground (arith, v.children u r, v.children p r, unborn.0)

  born_exited :
      (u r : ℕ)
      → count u ((child_of o p s).pcbs r).exited_list ≡ (
          if is_zombie ((child_of o p s).pcbs u).pstate
            && has_parent r ((child_of o p s).pcbs u).parent
          then 1
          else 0)
  unfolding child_of
  born_exited u r = ground (arith, v.exited u r, v.exited p r, unborn.0)

  born_parents :
      (u r : ℕ)
      → not (is_free ((child_of o p s).pcbs u).pstate)
          && has_parent r ((child_of o p s).pcbs u).parent
        ≡ true
      → is_alive ((child_of o p s).pcbs r).pstate ≡ true
  unfolding child_of
  born_parents u r h = ground (arith, v.parents u r, up r, h)

  born_small : (u : ℕ) → is_free ((child_of o p s).pcbs u).pstate ≡ false → u < max_proc
  unfolding child_of
  born_small u h = ground (arith, v.small u, h, unborn.1)

  born_apart :
      (u : ℕ)
      → not (is_free ((child_of o p s).pcbs u).pstate)
          && has_parent u ((child_of o p s).pcbs u).parent
        ≡ false
  unfolding child_of
  born_apart u = ground (arith, v.apart u, stranger u)

  born_root :
      is_free ((child_of o p s).pcbs 1).pstate ≡ false → ((child_of o p s).pcbs 1).parent ≡ none
  unfolding child_of
  born_root h = ground (arith, v.root, h, top)

  pub child_of-IsTree : IsTree rest (child_of o p s)
  child_of-IsTree = record {
    chain = born-Chain;
    unused_once = born_once;
    counted = born_count;
    children = born_children;
    exited = born_exited;
    parents = born_parents;
    small = born_small;
    apart = born_apart;
    root = born_root;
  }
