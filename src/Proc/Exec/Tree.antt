-- ===== src/Proc/Exec/Tree.antt =====
-- `sys_Exec` as a whole, on the tree of the processes.
use tiny_os_project.Prelude.{
  ℕ, ◌+◌, ◌%◌, ◌^◌, ◌≡◌, ◌≢◌, refl, inl, inr, ap, true, Option, none, some, List, [], ◌∷◌, leb, ltb,
  count, if◌then◌else◌, arith, ◌∙◌, Bool-cases,
}
use tiny_os_project.Prelude.Int.{ℤ, pos, minus_one}
use tiny_os_project.Proc.{max_proc, Pcb, Procs, alive, is_free, is_alive, set_pcb, acquire_pcb}
use tiny_os_project.Proc.Wait.{has_parent}
use tiny_os_project.Proc.Forest.{Chain, IsTree, SameTree, IsTree-congr, set_pcb-SameTree}
use tiny_os_project.Proc.Exec.{copy_args, inherit, place, start_main, exec_in, sys_exec}
use tiny_os_project.Proc.Exec.Adopt.{head_count, child_of, child_of-IsTree}

SameTree-trans : {f g h : ℕ → Pcb} → SameTree f g → SameTree g h → SameTree f h
SameTree-trans a b = record {
  pstate = λ p. b.pstate p ∙ a.pstate p;
  parent = λ p. b.parent p ∙ a.parent p;
  children = λ p. b.children p ∙ a.children p;
  exited = λ p. b.exited p ∙ a.exited p;
}

abbrev acquired : {W : Type 0} → ℕ → Procs W → Procs W
acquired p s = record (set_pcb p (record (s.pcbs p) { pstate = alive }) s) {
  pcb_freelist = (s.pcbs p).parent;
  process_count = (s.process_count + 1) % 2 ^ 32;
}

module _ {W : Type 0} where
  start_main-SameTree :
      (call : Option ℕ) (p t new : ℕ) (s : Procs W)
      → SameTree s.pcbs (start_main call p t new s).pcbs
        × ((start_main call p t new s).pcb_freelist ≡ s.pcb_freelist)
        × ((start_main call p t new s).process_count ≡ s.process_count)
  unfolding start_main
  start_main-SameTree none p t new s = (
    record { pstate = λ u. refl; parent = λ u. refl; children = λ u. refl; exited = λ u. refl },
    refl,
    refl,
  )
  start_main-SameTree (some call) p t new s = (
    record {
      pstate = λ u. ground arith;
      parent = λ u. ground arith;
      children = λ u. ground arith;
      exited = λ u. ground arith;
    },
    refl,
    refl,
  )

  orphan-SameTree :
      (p : ℕ) (s : Procs W)
      → SameTree
          (child_of none p s).pcbs
          (set_pcb p (record ((acquired p s).pcbs p) { parent = none }) (acquired p s)).pcbs
  unfolding child_of
  orphan-SameTree p s = record {
    pstate = λ u. ground arith;
    parent = λ u. ground arith;
    children = λ u. ground arith;
    exited = λ u. ground arith;
  }

  inherit-SameTree :
      (cur p : ℕ) (s : Procs W)
      → SameTree (child_of (some cur) p s).pcbs (inherit cur p (acquired p s)).pcbs
  unfolding child_of inherit
  inherit-SameTree cur p s = record {
    pstate = λ u. ground arith;
    parent = λ u. ground arith;
    children = λ u. ground arith;
    exited = λ u. ground arith;
  }

-- The two ways in which `sys_Exec` ends: no block is free, and nothing changed; or the first free block
-- holds the new process, a child of `cur` unless its pid is 0 or 1.
pub data Executed {W : Type 0} (cur : ℕ) (s : Procs W) : List ℕ → ℤ × Procs W → Type 0 where
  full : Executed cur s [] (minus_one, s)
  created :
      (p : ℕ) (rest : List ℕ) (s' : Procs W)
      → is_free (s.pcbs p).pstate ≡ true
      → (s'.pcbs p).pstate ≡ alive
      → (s'.pcbs p).parent ≡ (if leb p 1 then none else some cur)
      → ((u : ℕ) → u ≢ p → (s'.pcbs u).parent ≡ (s.pcbs u).parent)
      → IsTree rest s'
      → Executed cur s (p ∷ rest) (pos p, s')

top_lem : (cur p : ℕ) → p ≡ 1 → (if leb p 1 then none else some cur) ≡ none
top_lem cur p e = rw e refl

module _ {W : Type 0} where
  acquire_none : (s : Procs W) → Chain s.pcbs s.pcb_freelist [] → acquire_pcb s ≡ (none, s)
  unfolding acquire_pcb
  acquire_none s c = go s.pcb_freelist refl c
    where
      go : (f : Option ℕ) → s.pcb_freelist ≡ f → Chain s.pcbs f [] → acquire_pcb s ≡ (none, s)
      go none e c = rw e
      go (some q) e c = absurd c

  acquire_some :
      (p : ℕ) (rest : List ℕ) (s : Procs W)
      → Chain s.pcbs s.pcb_freelist (p ∷ rest)
      → acquire_pcb s ≡ (some p, acquired p s)
  unfolding acquire_pcb
  acquire_some p rest s c = go s.pcb_freelist refl c
    where
      go :
          (f : Option ℕ)
          → s.pcb_freelist ≡ f
          → Chain s.pcbs f (p ∷ rest)
          → acquire_pcb s ≡ (some p, acquired p s)
      go none e c = absurd c
      go (some q) e (f, c) = rw (e, f)

  abbrev placed : (cur p : ℕ) → Procs W → Procs W
  placed cur p s = place cur p (acquired p s)

  exec_none :
      (cur : ℕ) (call : Option ℕ) (argl : ℤ) (args : Option (ℕ → ℕ)) (t new : ℕ) (s : Procs W)
      → acquire_pcb s ≡ (none, s)
      → sys_exec cur call argl args t new s ≡ (minus_one, s)
  unfolding sys_exec exec_in
  exec_none cur call argl args t new s e = ap (exec_in cur call argl args t new) e

  exec_some :
      (cur p : ℕ) (call : Option ℕ) (argl : ℤ) (args : Option (ℕ → ℕ)) (t new : ℕ) (s : Procs W)
      → acquire_pcb s ≡ (some p, acquired p s)
      → let s2 = placed cur p s in
        sys_exec cur call argl args t new s ≡ (
          pos p,
          start_main call p t new (
              set_pcb p
                (record (s2.pcbs p) { main_task = call; argl = argl; args = copy_args argl args })
                s2),
        )
  unfolding sys_exec exec_in
  exec_some cur p call argl args t new s e = ap (exec_in cur call argl args t new) e

  -- The state before the main thread starts, against `child_of`.
  placed-SameTree :
      (cur p : ℕ) (s : Procs W)
      → let o = if leb p 1 then none else some cur in
        SameTree (child_of o p s).pcbs (placed cur p s).pcbs
        × ((placed cur p s).pcb_freelist ≡ (child_of o p s).pcb_freelist)
        × ((placed cur p s).process_count ≡ (child_of o p s).process_count)
  unfolding child_of inherit
  placed-SameTree cur p s = elim (Bool-cases (leb p 1)) [
    | inl low ↦ rw low (orphan-SameTree p s, refl, refl)
    | inr high ↦ rw high (inherit-SameTree cur p s, refl, refl)
  ]

  child_of_fields :
      (o : Option ℕ) (p : ℕ) (s : Procs W)
      → (((child_of o p s).pcbs p).pstate ≡ alive)
        × (((child_of o p s).pcbs p).parent ≡ o)
        × ((u : ℕ) → u ≢ p → ((child_of o p s).pcbs u).parent ≡ (s.pcbs u).parent)
  unfolding child_of
  child_of_fields o p s = (ground arith, ground arith, λ u n. ground (arith, n))

  unborn_lem :
      {s : Procs W} (p : ℕ) (rest : List ℕ) → IsTree (p ∷ rest) s → is_free (s.pcbs p).pstate ≡ true
  unborn_lem {s} p rest v =
      (head_count p (count p rest) (is_free (s.pcbs p).pstate) (ltb p max_proc) (v.unused_once p)).0

  parent_lem :
      (cur p q : ℕ) (s : Procs W)
      → is_alive (s.pcbs cur).pstate ≡ true
      → has_parent q (if leb p 1 then none else some cur) ≡ true
      → is_alive (s.pcbs q).pstate ≡ true
  parent_lem cur p q s live h = ground (arith, live, h)

  -- On a table whose tree is right, called by a live process: if no block is free, `sys_Exec`
  -- returns -1 and changes nothing; else the first free block becomes a live process, whose pid is
  -- returned, a child of the caller unless its pid is 0 or 1, no other process changes its parent,
  -- and the tree is right with the rest of the free list.
  pub sys_exec-Executed :
      {unused : List ℕ} {s : Procs W} (cur : ℕ) (call : Option ℕ) (argl : ℤ) (args : Option (ℕ → ℕ))
      (t new : ℕ)
      → IsTree unused s
      → is_alive (s.pcbs cur).pstate ≡ true
      → Executed cur s unused (sys_exec cur call argl args t new s)
  sys_exec-Executed {unused = []} {s = s} cur call argl args t new v live =
      rw (exec_none cur call argl args t new s (acquire_none s v.chain)) full
  sys_exec-Executed {unused = p ∷ rest} {s = s} cur call argl args t new v live =
      let o : Option ℕ = if leb p 1 then none else some cur in
      let s2 = placed cur p s in
      let s3 =
        set_pcb p (record (s2.pcbs p) { main_task = call; argl = argl; args = copy_args argl args })
          s2 in
      let (a, af, an) = placed-SameTree cur p s in
      let b_lem : SameTree s2.pcbs s3.pcbs = set_pcb-SameTree p _ s2 refl refl refl refl in
      let (c, cf, cn) = start_main-SameTree call p t new s3 in
      let same = SameTree-trans a (SameTree-trans (b_lem) c) in
      let (fs, fp, fo) = child_of_fields o p s in
      rw (exec_some cur p call argl args t new s (acquire_some p rest s v.chain)) (
        created p rest (start_main call p t new s3) (unborn_lem p rest v) (same.pstate p ∙ fs)
          (same.parent p ∙ fp) (λ u n. same.parent u ∙ fo u n)
          (IsTree-congr same (cf ∙ af) (cn ∙ an) (
            child_of-IsTree o p rest v (λ q h. parent_lem cur p q s live h)
              (λ e. top_lem cur p e))))
