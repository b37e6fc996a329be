-- ===== src/Proc/Forest.antt =====
-- The free list of the process table, and the tree of the processes.
use tiny_os_project.Prelude.{
  ℕ, zero, suc, ◌+◌, ◌≤◌, ◌<◌, ◌≡◌, ◌≢◌, refl, true, false, not, ◌&&◌, Option, none, some, List, [],
  ◌∷◌, ltb, if◌then◌else◌, update, arith, count, ◌∙◌, sym, ℕ_discrete,
}
use tiny_os_project.Proc.{max_proc, Pcb, Procs, is_free, is_alive, is_zombie}
use tiny_os_project.Proc.Wait.{has_parent}

-- From the pointer `o` on, the `parent` fields lead through the blocks of the list to NULL.
abbrev pub Chain : (ℕ → Pcb) → Option ℕ → List ℕ → Type 0
Chain pcbs none [] = Unit {0}
Chain pcbs (some p) (q ∷ l) = (p ≡ q) × Chain pcbs (pcbs p).parent l
Chain pcbs o l = ⊥

pub Chain-congr :
    (f g : ℕ → Pcb) (o : Option ℕ) (l : List ℕ)
    → ((p : ℕ) → 1 ≤ count p l → (g p).parent ≡ (f p).parent)
    → Chain f o l
    → Chain g o l
Chain-congr f g none [] same c = tt
Chain-congr f g none (q ∷ l) same c = c
Chain-congr f g (some p) [] same c = c
Chain-congr f g (some p) (q ∷ l) same (e, c) =
    let here : (g p).parent ≡ (f p).parent = same p (ground (arith, e)) in
    (e, rw here (Chain-congr f g (f p).parent l (λ u i. same u (omega arith)) c))

-- How many of the blocks below `n` are in use.
abbrev pub used_at : Pcb → ℕ
used_at b = if is_free b.pstate then 0 else 1

unfoldable pub used_below : ℕ → (ℕ → Pcb) → ℕ
used_below zero pcbs = 0
used_below (suc n) pcbs = used_below n pcbs + used_at (pcbs n)

pub used_below_bound : (n : ℕ) (f : ℕ → Pcb) → used_below n f ≤ n
unfolding used_below
used_below_bound zero f = omega arith
used_below_bound (suc n) f = ground (arith, used_below_bound n f)

pub used_below-congr :
    (n : ℕ) (f g : ℕ → Pcb)
    → ((p : ℕ) → p < n → (g p).pstate ≡ (f p).pstate)
    → used_below n g ≡ used_below n f
unfolding used_below
used_below-congr zero f g same = refl
used_below-congr (suc n) f g same =
    let here : (g n).pstate ≡ (f n).pstate = same n (omega arith) in
    rw here (omega (arith, used_below-congr n f g (λ p h. same p (omega arith))))

-- A change of one block.
pub used_below-change :
    (n p : ℕ) (f g : ℕ → Pcb)
    → p < n
    → ((u : ℕ) → u ≢ p → (g u).pstate ≡ (f u).pstate)
    → used_below n g + used_at (f p) ≡ used_below n f + used_at (g p)
unfolding used_below
used_below-change zero p f g h same = absurd (omega arith)
used_below-change (suc n) p f g h same = elim (ℕ_discrete p n) [
  | yes e ↦ rw e (
      let rest : used_below n g ≡ used_below n f =
        used_below-congr n f g (λ u k. same u (λ q. omega (arith, e, q))) in
      omega (arith, rest))
  | no e ↦
      let here : (g n).pstate ≡ (f n).pstate = same n (λ q. e (sym q)) in
      rw here (omega (arith, used_below-change n p f g (omega arith) same))
]

-- `unused` is the free list. Every process with a parent stands once among the children of it, and
-- of nobody else, and the parent is ALIVE; it stands once among the exited children of `heir` exactly
-- if it is a zombie. Outside `hand_over` the heir is the parent.
pub record IsForest {W : Type 0} (unused : List ℕ) (heir : ℕ → Option ℕ) (s : Procs W)
    : Type 0 where
  pub chain : Chain s.pcbs s.pcb_freelist unused
  pub unused_once :
      (p : ℕ) → count p unused ≡ (if is_free (s.pcbs p).pstate && ltb p max_proc then 1 else 0)
  pub counted : s.process_count ≡ used_below max_proc s.pcbs
  pub children :
      (p q : ℕ)
      → count p (s.pcbs q).children_list
        ≡ (if not (is_free (s.pcbs p).pstate) && has_parent q (s.pcbs p).parent then 1 else 0)
  pub exited :
      (p q : ℕ)
      → count p (s.pcbs q).exited_list
        ≡ (if is_zombie (s.pcbs p).pstate && has_parent q (heir p) then 1 else 0)
  pub parents :
      (p q : ℕ)
      → not (is_free (s.pcbs p).pstate) && has_parent q (s.pcbs p).parent ≡ true
      → is_alive (s.pcbs q).pstate ≡ true
  pub small : (p : ℕ) → is_free (s.pcbs p).pstate ≡ false → p < max_proc
  pub apart : (p : ℕ) → not (is_free (s.pcbs p).pstate) && has_parent p (s.pcbs p).parent ≡ false
  pub root : is_free (s.pcbs 1).pstate ≡ false → (s.pcbs 1).parent ≡ none

abbrev pub parents_of : {W : Type 0} → Procs W → ℕ → Option ℕ
parents_of s p = (s.pcbs p).parent

abbrev pub IsTree : {W : Type 0} → List ℕ → Procs W → Type 0
IsTree unused s = IsForest unused (parents_of s) s

-- The fields of a block that the tree depends on.
pub record SameTree (f g : ℕ → Pcb) : Type 0 where
  pub pstate : (p : ℕ) → (g p).pstate ≡ (f p).pstate
  pub parent : (p : ℕ) → (g p).parent ≡ (f p).parent
  pub children : (p : ℕ) → (g p).children_list ≡ (f p).children_list
  pub exited : (p : ℕ) → (g p).exited_list ≡ (f p).exited_list

pub IsTree-congr :
    {W : Type 0} {unused : List ℕ} {s s' : Procs W}
    → SameTree s.pcbs s'.pcbs
    → s'.pcb_freelist ≡ s.pcb_freelist
    → s'.process_count ≡ s.process_count
    → IsTree unused s
    → IsTree unused s'
IsTree-congr {unused = unused} {s = s} {s' = s'} same e n v = record {
  chain = rw e (Chain-congr s.pcbs s'.pcbs s.pcb_freelist unused (λ p i. same.parent p) v.chain);
  unused_once = λ p. rw (same.pstate p) (v.unused_once p);
  counted = n ∙ (v.counted ∙ sym (used_below-congr max_proc s.pcbs s'.pcbs (λ p h. same.pstate p)));
  children = λ p q. rw (same.pstate p, same.parent p, same.children q) (v.children p q);
  exited = λ p q. rw (same.pstate p, same.parent p, same.exited q) (v.exited p q);
  parents = λ p q h. rw (same.pstate q) (v.parents p q (rw (same.pstate p, same.parent p) at h));
  small = λ p h. v.small p (rw (same.pstate p) at h);
  apart = λ p. rw (same.pstate p, same.parent p) (v.apart p);
  root = λ h. same.parent 1 ∙ v.root (rw (same.pstate 1) at h);
}

-- A write of a block that leaves those fields.
pub set_pcb-SameTree :
    {W : Type 0} (p : ℕ) (b : Pcb) (s : Procs W)
    → b.pstate ≡ (s.pcbs p).pstate
    → b.parent ≡ (s.pcbs p).parent
    → b.children_list ≡ (s.pcbs p).children_list
    → b.exited_list ≡ (s.pcbs p).exited_list
    → SameTree s.pcbs (update s.pcbs p b)
set_pcb-SameTree p b s e f g h = record {
  pstate = λ u. ground (arith, e);
  parent = λ u. ground (arith, f);
  children = λ u. ground (arith, g);
  exited = λ u. ground (arith, h);
}
