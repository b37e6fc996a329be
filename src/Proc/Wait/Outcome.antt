-- ===== src/Proc/Wait/Outcome.antt =====
-- What `sys_WaitChild` promises, and that the code keeps it.
use tiny_os_project.Prelude.{
  ℕ, zero, suc, ◌≤◌, ◌≡◌, refl, inl, inr, Bool, true, false, Option, none, some, List, [], ◌∷◌,
  if◌then◌else◌, arith, count, ap, Bool-cases, List-cases,
}
use tiny_os_project.Prelude.Int.{ℤ, pos, negsuc, minus_one, in_range}
use tiny_os_project.Proc.{max_proc, Procs, PidState, zombie, is_free, is_alive, get_pcb}
use tiny_os_project.Proc.Wait.{
  has_parent, Waited, sleeps, returns, cleanup_zombie, reaped, wait_specific_resume,
  wait_for_specific_child, wait_for_any_child, sys_wait_child,
}
use tiny_os_project.Proc.Forest.{IsTree}
use tiny_os_project.Proc.Wait.Reap.{cleanup_zombie-IsTree, cleanup_zombie_count}

-- A child of `cur` that the argument `cpid` names: that child, or any for NOPROC.
abbrev pub IsChild : {W : Type 0} → (cur : ℕ) → ℤ → Procs W → ℕ → Type 0
IsChild cur (pos c) s p =
    (p ≡ c) × (is_free (s.pcbs p).pstate ≡ false) × ((s.pcbs p).parent ≡ some cur)
IsChild cur (negsuc zero) s p = (is_free (s.pcbs p).pstate ≡ false) × ((s.pcbs p).parent ≡ some cur)
IsChild cur (negsuc (suc n)) s p = ⊥

-- The three ways in which a wait can go on: an error, as no child fits; sleep, as some child fits and
-- none of those is a zombie; and the end of a zombie child that fits.
pub data Outcome {W : Type 0} (unused : List ℕ) (cur : ℕ) (cpid : ℤ) (status : Bool) (s : Procs W)
    : Waited W → Type 0 where
  refused :
      ((p : ℕ) → ¬ IsChild cur cpid s p)
      → Outcome unused cur cpid status s (returns minus_one none s)
  asleep :
      (p : ℕ)
      → IsChild cur cpid s p
      → ((u : ℕ) → IsChild cur cpid s u → is_alive (s.pcbs u).pstate ≡ true)
      → Outcome unused cur cpid status s (sleeps s)
  ended :
      (p : ℕ) (s' : Procs W)
      → IsChild cur cpid s p
      → (s.pcbs p).pstate ≡ zombie
      → IsTree (p ∷ unused) s'
      → suc s'.process_count ≡ s.process_count
      → Outcome unused cur cpid status s
          (returns (pos p) (if status then some (s.pcbs p).exitval else none) s')

zombie_lem : (t : PidState) → is_free t ≡ false → is_alive t ≡ false → t ≡ zombie
zombie_lem t f a = ground arith

parent_lem : (q : ℕ) (o : Option ℕ) → has_parent q o ≡ true → o ≡ some q
parent_lem q o h = ground arith

module _ {W : Type 0} {unused : List ℕ} {s : Procs W} (cur : ℕ) (status : Bool)
    (v : IsTree unused s) where
  ended_lem :
      (cpid : ℤ) (p : ℕ)
      → IsChild cur cpid s p
      → (s.pcbs p).pstate ≡ zombie
      → (s.pcbs p).parent ≡ some cur
      → Outcome unused cur cpid status s (reaped p (cleanup_zombie status p s))
  unfolding cleanup_zombie
  ended_lem cpid p mine dead parent =
      ended p (cleanup_zombie status p s).1 mine dead
        (cleanup_zombie-IsTree p cur dead parent v status)
        (cleanup_zombie_count p cur dead parent v status)

  specific-Outcome :
      (cpid : ℕ)
      → Outcome unused cur (pos cpid) status s (wait_for_specific_child cur (pos cpid) status s)
  unfolding wait_for_specific_child get_pcb wait_specific_resume
  specific-Outcome c = elim (Bool-cases (in_range max_proc (pos c))) [
    | inr out ↦ rw out (refused (λ p h. ground (arith, out, h, v.small p)))
    | inl legal ↦ rw legal (elim (Bool-cases (is_free (s.pcbs c).pstate)) [
      | inl unborn ↦ rw (unborn, get_pcb) (refused (λ p h. ground (arith, h, unborn)))
      | inr born ↦
          rw (born, get_pcb)
            (elim (Bool-cases (has_parent cur (s.pcbs c).parent)) [
              | inr other ↦ rw other (refused (λ p h. ground (arith, h, other)))
              | inl mine ↦ rw mine (elim (Bool-cases (is_alive (s.pcbs c).pstate)) [
                | inl lives ↦
                    rw (lives, wait_specific_resume)
                      (asleep c (refl, born, parent_lem cur (s.pcbs c).parent mine)
                        (λ u h. rw h.0 lives))
                | inr dead ↦
                    rw (dead, wait_specific_resume)
                      (ended_lem (pos c) c (refl, born, parent_lem cur (s.pcbs c).parent mine)
                        (zombie_lem (s.pcbs c).pstate born dead)
                        (parent_lem cur (s.pcbs c).parent mine))
              ])
            ])
    ])
  ]

  pub child_lem : (p : ℕ) → 1 ≤ count p (s.pcbs cur).children_list → IsChild cur minus_one s p
  child_lem p h = (ground (arith, v.children p cur, h), ground (arith, v.children p cur, h))

  pub exited_lem :
      (p : ℕ)
      → 1 ≤ count p (s.pcbs cur).exited_list
      → ((s.pcbs p).pstate ≡ zombie) × ((s.pcbs p).parent ≡ some cur)
  exited_lem p h = (ground (arith, v.exited p cur, h), ground (arith, v.exited p cur, h))

  childless : (s.pcbs cur).children_list ≡ [] → (p : ℕ) → ¬ IsChild cur minus_one s p
  childless e p h = ground (arith, h, v.children p cur, ap (count p) e)

  all_alive :
      (s.pcbs cur).exited_list ≡ []
      → (p : ℕ) → IsChild cur minus_one s p
      → is_alive (s.pcbs p).pstate ≡ true
  all_alive e p h = ground (arith, h, v.exited p cur, ap (count p) e)

  pub any-Outcome : Outcome unused cur minus_one status s (wait_for_any_child cur status s)
  unfolding wait_for_any_child
  any-Outcome = elim (List-cases (s.pcbs cur).children_list) [
    | inl e ↦ rw (e, wait_for_any_child) (refused (childless e))
    | inr (p, l, e) ↦
        let mine = child_lem p (rw e (ground arith)) in
        rw (e, wait_for_any_child)
          (elim (List-cases (s.pcbs cur).exited_list) [
            | inl f ↦ rw f (asleep p mine (all_alive f))
            | inr (c, m, f) ↦
                let (dead, parent) = exited_lem c (rw f (ground arith)) in
                rw f (ended_lem minus_one c (ground (arith, dead), parent) dead parent)
          ])
  ]

  -- On a table whose tree is right, `sys_WaitChild` of any pid or of NOPROC does one of three
  -- things: it returns NOPROC and changes nothing, where no child fits the argument; it sleeps and
  -- changes nothing, where some child fits and every one that fits is alive; or it returns the pid
  -- of a zombie child that fits, with that child's exit value, and then the child's block heads the
  -- free list, one process less is counted, and the tree is right.
  pub sys_wait_child-Outcome :
      (cpid : ℤ) → Outcome unused cur cpid status s (sys_wait_child cur cpid status s)
  unfolding sys_wait_child
  sys_wait_child-Outcome (negsuc zero) = any-Outcome
  sys_wait_child-Outcome (pos c) = specific-Outcome c
  sys_wait_child-Outcome (negsuc (suc n)) = refused (λ p h. h)
