-- ===== src/Proc/Exec/Inherit.antt =====
-- `sys_Exec`: the streams that a new process shares with its parent.
use tiny_os_project.Prelude.{
  ℕ, ◌+◌, ◌^◌, ◌≤◌, ◌<◌, ◌≡◌, ◌≢◌, refl, Option, none, some, List, [], ◌∷◌, arith,
}
use tiny_os_project.Streams.{Kernel, fcb_incref}
use tiny_os_project.Streams.Refs.{occurs, bump, IsCounted, incref-IsCounted}
use tiny_os_project.Proc.{Procs, set_pcb, files_of}
use tiny_os_project.Proc.Exec.{incref_all, inherit}

IsCounted-congr :
    {W : Type 0} {held held' : ℕ → ℕ} {k : Kernel W}
    → ((f : ℕ) → held' f ≡ held f)
    → IsCounted held k
    → IsCounted held' k
IsCounted-congr same v = record { table = v.table; each = λ f. ground (arith, same f, v.each f) }

module _ {W : Type 0} where
  incref_all-IsCounted :
      {held : ℕ → ℕ} (t : List (Option ℕ)) (k : Kernel W)
      → ((f : ℕ) → held f + occurs f t + 32 < 2 ^ 32)
      → ((f : ℕ) → occurs f t ≤ occurs f k.fidt)
      → IsCounted held k
      → IsCounted (λ f. held f + occurs f t) (incref_all t k)
  unfolding incref_all
  incref_all-IsCounted [] k room part v = IsCounted-congr (λ f. omega arith) v
  incref_all-IsCounted (none ∷ t) k room part v =
      IsCounted-congr (λ f. omega arith)
        (incref_all-IsCounted t k (λ f. omega (arith, room f)) (λ f. omega (arith, part f)) v)
  incref_all-IsCounted {held = held} (some g ∷ t) k room part v =
      let w = incref-IsCounted g (λ f. ground (arith, room f)) (ground (arith, part g)) v in
      IsCounted-congr (λ f. omega arith)
        (incref_all-IsCounted {held = bump held g} t (fcb_incref g k) (λ f. omega (arith, room f))
          (λ f. omega (arith, part f)) w)

  -- The table of the state, which is not that of a process, is left as it was.
  incref_table :
      (t u : List (Option ℕ)) (k : Kernel W)
      → record (incref_all t k) { fidt = u } ≡ incref_all t (record k { fidt = u })
  unfolding incref_all
  incref_table [] u k = refl
  incref_table (none ∷ t) u k = incref_table t u k
  incref_table (some f ∷ t) u k = incref_table t u (fcb_incref f k)

  -- The table that the loop reads.
  abbrev inherit_files : (cur p : ℕ) → Procs W → List (Option ℕ)
  inherit_files cur p s =
      let s1 = set_pcb p (record (s.pcbs p) { parent = some cur }) s in
      let s2 =
        set_pcb cur (record (s1.pcbs cur) { children_list = p ∷ (s1.pcbs cur).children_list }) s1 in
      (s2.pcbs cur).fidt

  -- Where every reference counter of the streams is right as the parent sees them, with room in 32
  -- bits for one more file table: after a new process inherited the streams, the counters are right
  -- with one more reference for each entry of the new table, which equals the parent's.
  pub inherit-IsCounted :
      {held : ℕ → ℕ} (cur p : ℕ) (s : Procs W)
      → ((f : ℕ) → held f + occurs f (s.pcbs cur).fidt + 32 < 2 ^ 32)
      → p ≢ cur
      → IsCounted held (files_of cur s)
      → let s' = inherit cur p s in
        IsCounted (λ f. held f + occurs f (s'.pcbs p).fidt) (files_of cur s')
        × ((s'.pcbs p).fidt ≡ (s'.pcbs cur).fidt)
  unfolding inherit
  inherit-IsCounted {held = held} cur p s room n v =
      let s' = inherit cur p s in
      let t = (s.pcbs cur).fidt in
      let mine : (s'.pcbs cur).fidt ≡ t = ground (arith, n) in
      let its : (s'.pcbs p).fidt ≡ t = ground (arith, n) in
      let read : inherit_files cur p s ≡ t = ground (arith, n) in
      (
        rw (its, mine, read, incref_table t t s.files)
            (incref_all-IsCounted t (files_of cur s) room (λ f. omega arith) v),
        rw (its, mine) refl,
      )
