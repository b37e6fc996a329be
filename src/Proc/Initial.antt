-- ===== src/Proc/Initial.antt =====
-- The process table as `initialize_processes` leaves it before its call of `Exec`.
use tiny_os_project.Prelude.{
  ℕ, zero, suc, ◌+◌, ◌≤◌, ◌<◌, ◌≡◌, ◌≢◌, refl, inl, inr, true, none, some, List, [], ◌∷◌, ltb,
  if◌then◌else◌, arith, count, ◌∙◌, sym, ap, Bool-cases,
}
use tiny_os_project.Proc.{
  max_proc, Pcb, Procs, free, is_free, set_pcb, initialize_pcb, link_free, initialize_table,
}
use tiny_os_project.Proc.Forest.{Chain, Chain-congr, IsTree, used_below}

-- The pids below `n`, before those of `l`.
pub pids_before : (n : ℕ) → List ℕ → List ℕ
pids_before zero l = l
pids_before (suc n) l = pids_before n (n ∷ l)

count-pids :
    (n u : ℕ) (l : List ℕ) → count u (pids_before n l) ≡ (if ltb u n then 1 else 0) + count u l
unfolding pids_before
count-pids zero u l = ground arith
count-pids (suc n) u l = ground (arith, count-pids n u (n ∷ l))

-- What the linking of the free blocks leaves as it was.
record Linked (f g : ℕ → Pcb) : Type 0 where
  pstate : (u : ℕ) → (g u).pstate ≡ (f u).pstate
  children : (u : ℕ) → (g u).children_list ≡ (f u).children_list
  exited : (u : ℕ) → (g u).exited_list ≡ (f u).exited_list

module _ {W : Type 0} where
  linked : ℕ → Procs W → Procs W
  linked p s = record (set_pcb p (record (s.pcbs p) { parent = s.pcb_freelist }) s) {
    pcb_freelist = some p;
  }

  linked-Linked : (p : ℕ) (s : Procs W) → Linked s.pcbs (linked p s).pcbs
  unfolding linked
  linked-Linked p s = record {
    pstate = λ u. ground arith;
    children = λ u. ground arith;
    exited = λ u. ground arith;
  }

  linked_other : (p u : ℕ) (s : Procs W) → u ≢ p → ((linked p s).pcbs u).parent ≡ (s.pcbs u).parent
  unfolding linked
  linked_other p u s n = ground (arith, n)

  linked-Chain :
      (p : ℕ) (l : List ℕ) (s : Procs W)
      → count p l ≡ 0
      → Chain s.pcbs s.pcb_freelist l
      → Chain (linked p s).pcbs (some p) (p ∷ l)
  unfolding linked
  linked-Chain p l s fresh c =
      let here : ((linked p s).pcbs p).parent ≡ s.pcb_freelist = ground arith in
      (
        refl,
        rw here (
            Chain-congr s.pcbs (linked p s).pcbs s.pcb_freelist l
              (λ u i. linked_other p u s (λ e. omega (arith, i, fresh, ap (λ n. count n l) e))) c),
      )

  link_free-Linked : (n : ℕ) (s : Procs W) → Linked s.pcbs (link_free n s).pcbs
  unfolding link_free linked
  link_free-Linked zero s = record { pstate = λ u. refl; children = λ u. refl; exited = λ u. refl }
  link_free-Linked (suc p) s =
      let a = linked-Linked p s in
      let b = link_free-Linked p (linked p s) in
      record {
        pstate = λ u. b.pstate u ∙ a.pstate u;
        children = λ u. b.children u ∙ a.children u;
        exited = λ u. b.exited u ∙ a.exited u;
      }

  link_free-Chain :
      (n : ℕ) (l : List ℕ) (s : Procs W)
      → ((u : ℕ) → u < n → count u l ≡ 0)
      → Chain s.pcbs s.pcb_freelist l
      → Chain (link_free n s).pcbs (link_free n s).pcb_freelist (pids_before n l)
  unfolding link_free linked pids_before
  link_free-Chain zero l s fresh c = c
  link_free-Chain (suc p) l s fresh c =
      link_free-Chain p (p ∷ l) (linked p s) (λ u h. ground (arith, h, fresh u))
        (linked-Chain p l s (fresh p (omega arith)) c)

none_used : (n : ℕ) (f : ℕ → Pcb) → ((u : ℕ) → is_free (f u).pstate ≡ true) → used_below n f ≡ 0
unfolding used_below
none_used zero f h = refl
none_used (suc n) f h = rw (none_used n f h, h n) refl

-- Nothing of the table stands behind its end.
pub record IsBounded (f : ℕ → Pcb) : Type 0 where
  pub pstate : (u : ℕ) → max_proc ≤ u → (f u).pstate ≡ free
  pub children : (u : ℕ) → max_proc ≤ u → (f u).children_list ≡ []
  pub exited : (u : ℕ) → max_proc ≤ u → (f u).exited_list ≡ []

-- The blocks after the first loop.
cleared : (ℕ → Pcb) → ℕ → Pcb
cleared f p = if ltb p max_proc then initialize_pcb (f p) else f p

cleared_lem :
    (f : ℕ → Pcb)
    → IsBounded f
    → (u : ℕ)
    → ((cleared f u).pstate ≡ free)
      × ((cleared f u).children_list ≡ [])
      × ((cleared f u).exited_list ≡ [])
unfolding cleared
cleared_lem f v u = elim (Bool-cases (ltb u max_proc)) [
  | inl h ↦ rw h (refl, refl, refl)
  | inr h ↦
      let far : max_proc ≤ u = ground (arith, h) in
      rw h (v.pstate u far, v.children u far, v.exited u far)
]

module _ {W : Type 0} (s : Procs W) (v : IsBounded s.pcbs) where
  blocks :
      (u : ℕ)
      → (((initialize_table s).pcbs u).pstate ≡ free)
        × (((initialize_table s).pcbs u).children_list ≡ [])
        × (((initialize_table s).pcbs u).exited_list ≡ [])
  unfolding initialize_table cleared
  blocks u =
      let s1 = record s { pcbs = cleared s.pcbs; pcb_freelist = none } in
      let a = link_free-Linked max_proc s1 in
      let (b, c, e) = cleared_lem s.pcbs v u in (a.pstate u ∙ b, a.children u ∙ c, a.exited u ∙ e)

  table-Chain :
      Chain (initialize_table s).pcbs (initialize_table s).pcb_freelist (pids_before max_proc [])
  unfolding initialize_table cleared
  table-Chain =
      link_free-Chain max_proc [] (record s { pcbs = cleared s.pcbs; pcb_freelist = none })
        (λ u h. refl) tt

  empty_count : (initialize_table s).process_count ≡ 0
  unfolding initialize_table
  empty_count = refl

  -- Where nothing of the table stands behind its end, `initialize_processes` leaves, before its
  -- call of `Exec`, a table whose tree is right: no block is in use, and the free list holds the
  -- 65536 blocks, in the order of the pids.
  pub initialize_table-IsTree : IsTree (pids_before max_proc []) (initialize_table s)
  initialize_table-IsTree = record {
    chain = table-Chain;
    unused_once = λ u. rw (blocks u).0 (count-pids max_proc u [] ∙ omega arith);
    counted =
        empty_count
        ∙ sym (none_used max_proc (initialize_table s).pcbs (λ u. rw (blocks u).0 refl));
    children = λ u r. rw ((blocks u).0, (blocks r).1) refl;
    exited = λ u r. rw ((blocks u).0, (blocks r).2) refl;
    parents = λ u r h. ground (arith, h, (blocks u).0);
    small = λ u h. ground (arith, h, (blocks u).0);
    apart = λ u. rw (blocks u).0 refl;
    root = λ h. ground (arith, h, (blocks 1).0);
  }
