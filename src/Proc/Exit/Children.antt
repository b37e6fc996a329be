-- ===== src/Proc/Exit/Children.antt =====
-- kernel_proc.c, `sys_Exit`: the wait of the process 1 for its children.
use tiny_os_project.Prelude.{
  ℕ, zero, suc, ◌<◌, ◌≡◌, ◌≢◌, refl, inl, inr, true, false, some, List, [], ◌∷◌, ◌==◌, arith,
  Bool-cases, List-cases,
}
use tiny_os_project.Prelude.Int.{ℤ, minus_one}
use tiny_os_project.Proc.{Procs, is_alive}
use tiny_os_project.Proc.Forest.{IsTree, IsTree-congr, set_pcb-SameTree}
use tiny_os_project.Proc.Wait.{Waited, wait_for_any_child}
use tiny_os_project.Proc.Wait.Outcome.{
  Outcome, IsChild, refused, asleep, ended, any-Outcome, child_lem, exited_lem,
}
use tiny_os_project.Proc.Exit.{Exiting, sleeps, exits, set_exitval, reap_loop, sys_exit}

-- Where a `sys_Exit` of `cur` stops, called in the state `s0`: if `cur` is the process 1, asleep while there
-- are children and none of them has exited, or at the exit of the thread with no children left; else at the
-- exit of the thread, with the other processes as they were. At the exit the value is stored. Some blocks
-- joined the free list `unused` on the way.
pub data Stopped {W : Type 0} (cur : ℕ) (exitval : ℤ) (s0 : Procs W) : Exiting W → Type 0 where
  waits :
      (unused : List ℕ) (s : Procs W) (p : ℕ)
      → cur ≡ 1
      → IsTree unused s
      → IsChild cur minus_one s p
      → (s.pcbs cur).exited_list ≡ []
      → Stopped cur exitval s0 (sleeps s)
  leaves :
      (unused : List ℕ) (s : Procs W)
      → IsTree unused s
      → (s.pcbs cur).exitval ≡ exitval
      → (cur ≡ 1 → (s.pcbs cur).children_list ≡ [])
      → (cur ≢ 1 → (p : ℕ) → p ≢ cur → s.pcbs p ≡ s0.pcbs p)
      → Stopped cur exitval s0 (exits s)

module _ {W : Type 0} (cur : ℕ) (exitval : ℤ) where
  set_exitval-IsTree :
      {unused : List ℕ} {s : Procs W} → IsTree unused s → IsTree unused (set_exitval cur exitval s)
  set_exitval-IsTree {s = s} v =
      IsTree-congr (set_pcb-SameTree cur _ s refl refl refl refl) refl refl v

  emptied :
      (s : Procs W)
      → (s.pcbs cur).children_list ≡ []
      → ((set_exitval cur exitval s).pcbs cur).children_list ≡ []
  emptied s e = ground (arith, e)

  stored : (s : Procs W) → ((set_exitval cur exitval s).pcbs cur).exitval ≡ exitval
  stored s = ground arith

  -- The loop of the process 1.
  module _ (init : cur ≡ 1) (s0 : Procs W) where
    leaves_lem :
        {unused : List ℕ} {s : Procs W}
        → IsTree unused s
        → ((p : ℕ) → ¬ IsChild cur minus_one s p)
        → Stopped cur exitval s0 (exits (set_exitval cur exitval s))
    leaves_lem {unused = unused} {s = s} v nobody = elim (List-cases (s.pcbs cur).children_list) [
      | inl e ↦
          leaves unused (set_exitval cur exitval s) (set_exitval-IsTree v) (stored s)
            (λ c. emptied s e) (λ other. absurd (other init))
      | inr (p, l, e) ↦ absurd (nobody p (child_lem cur false v p (rw e (ground arith))))
    ]

    waits_lem :
        {unused : List ℕ} {s : Procs W} (p : ℕ)
        → IsTree unused s
        → IsChild cur minus_one s p
        → ((u : ℕ) → IsChild cur minus_one s u → is_alive (s.pcbs u).pstate ≡ true)
        → Stopped cur exitval s0 (sleeps s)
    waits_lem {unused = unused} {s = s} p v mine others =
        elim (List-cases (s.pcbs cur).exited_list) [
          | inl e ↦ waits unused s p init v mine e
          | inr (u, l, e) ↦
              let (dead, parent) = exited_lem cur false v u (rw e (ground arith)) in
              let lives = others u (ground (arith, dead), parent) in
              absurd (ground (arith, dead, lives))
        ]

    -- One turn of the loop, if the rest of it stops.
    reap-Stopped :
        {unused : List ℕ} (fuel : ℕ) (s : Procs W)
        → IsTree unused s
        → ((unused' : List ℕ) (s' : Procs W)
            → IsTree unused' s'
            → suc s'.process_count ≡ s.process_count
            → (r : Exiting W) × (reap_loop fuel cur exitval s' ≡ some r) × Stopped cur exitval s0 r)
        → (w : Waited W) → wait_for_any_child cur false s ≡ w
        → Outcome unused cur minus_one false s w
        → (r : Exiting W) × (reap_loop (suc fuel) cur exitval s ≡ some r) × Stopped cur exitval s0 r
    unfolding reap_loop
    reap-Stopped fuel s v rest w e (refused nobody) =
        (exits (set_exitval cur exitval s), rw (e, reap_loop) refl, leaves_lem v nobody)
    reap-Stopped fuel s v rest w e (asleep p mine others) =
        (sleeps s, rw (e, reap_loop) refl, waits_lem p v mine others)
    reap-Stopped fuel s v rest w e (ended p s' mine dead t less) =
        let (r, f, stopped) = rest (p ∷ _) s' t less in (r, rw (e, reap_loop) f, stopped)

    reap_loop-Stopped :
        {unused : List ℕ} (fuel : ℕ) (s : Procs W)
        → IsTree unused s
        → s.process_count < fuel
        → (r : Exiting W) × (reap_loop fuel cur exitval s ≡ some r) × Stopped cur exitval s0 r
    unfolding reap_loop
    reap_loop-Stopped zero s v h = absurd (omega (arith, h))
    reap_loop-Stopped (suc fuel) s v h =
        reap-Stopped fuel s v
          (λ unused' s' t less. reap_loop-Stopped fuel s' t (omega (arith, less, h)))
          (wait_for_any_child cur false s) refl (any-Outcome cur false v)

  -- On a table whose tree is right, given more fuel than there are processes, the loop of
  -- `sys_Exit` ends, and the tree is right: either it is the process 1, asleep, while it has
  -- children and none of them has exited, or it is at the exit of the thread, with the value
  -- stored: the process 1 has no children left then, and any other process has changed no block but
  -- its own.
  pub sys_exit-Stopped :
      {unused : List ℕ} {s : Procs W} (fuel : ℕ)
      → IsTree unused s
      → s.process_count < fuel
      → (r : Exiting W) × (sys_exit fuel cur exitval s ≡ some r) × Stopped cur exitval s r
  unfolding sys_exit
  sys_exit-Stopped {unused = unused} {s = s} fuel v h = elim (Bool-cases (cur == 1)) [
    | inl e ↦
        let (r, f, stopped) =
          reap_loop-Stopped (ground (arith, e)) s fuel (set_exitval cur exitval s)
            (set_exitval-IsTree v) h in
        (r, rw e f, stopped)
    | inr e ↦
        let s1 = set_exitval cur exitval (set_exitval cur exitval s) in
        (
          exits s1,
          rw e refl,
          leaves unused s1 (set_exitval-IsTree (set_exitval-IsTree v))
              (stored (set_exitval cur exitval s)) (λ c. ground (arith, c, e))
              (λ init p other. ground (arith, other)),
        )
  ]
