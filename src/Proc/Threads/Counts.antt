-- ===== src/Proc/Threads/Counts.antt =====
-- kernel_threads.c: who holds a reference to a `PTCB`, through joins, detaches, exits and new threads.
use tiny_os_project.Prelude.{
  ℕ, suc, ◌+◌, ◌-◌, ◌≤◌, ◌≡◌, inl, inr, true, List, [], ◌∷◌, if◌then◌else◌, update, arith, count,
  Bool-cases,
}
use tiny_os_project.Prelude.Int.{pos}
use tiny_os_project.Sched.{remove}
use tiny_os_project.Sched.Queues.{count-remove}
use tiny_os_project.Proc.{Ptcb, Procs, set_pcb, increment, decrement, is_zero}
use tiny_os_project.Proc.Threads.{holds, set_ptcb_refcount, drop_ptcb}

-- The references to the block of a thread that no join holds: of the thread itself until it exits, and
-- those `extra` ones that nobody gives back (one for a main thread).
abbrev pub own : (extra : ℕ) → Ptcb → ℕ
own extra b = if b.exited then extra else suc extra

-- `joiners a` threads of the process `cur` are in a join of the thread `a`. Their block is there, and the
-- counts are right.
pub record IsCounted {W : Type 0} (extra : ℕ → ℕ) (cur : ℕ) (joiners : ℕ → ℕ) (s : Procs W)
    : Type 0 where
  pub once : (a : ℕ) → count a (s.pcbs cur).ptcb_list ≤ 1
  pub held : (a : ℕ) → 1 ≤ joiners a → count a (s.pcbs cur).ptcb_list ≡ 1
  pub refs :
      (a : ℕ)
      → count a (s.pcbs cur).ptcb_list ≡ 1
      → (s.ptcbs a).refcount ≡ pos (own (extra a) (s.ptcbs a) + joiners a)

abbrev pub more : (ℕ → ℕ) → ℕ → ℕ → ℕ
more j a = update j a (suc (j a))

abbrev pub fewer : (ℕ → ℕ) → ℕ → ℕ → ℕ
fewer j a = update j a (j a - 1)

pub holds-count : (a : ℕ) (l : List ℕ) → holds a l ≡ true → 1 ≤ count a l
holds-count a [] h = ground (arith, h)
holds-count a (b ∷ l) h = ground (arith, h, holds-count a l)

module _ {W : Type 0} (cur tid : ℕ) where
  -- The state in which a join waits.
  unfoldable pub waiting : Procs W → Procs W
  waiting s = set_ptcb_refcount tid (increment (s.ptcbs tid).refcount) s

  -- The block of a thread that nobody refers to leaves the list.
  removed : Procs W → Procs W
  removed s = set_pcb cur (record (s.pcbs cur) { ptcb_list = remove tid (s.pcbs cur).ptcb_list }) s

  -- One reference less, and then the test for a block without references.
  unfoldable pub released : Procs W → Procs W
  released s = set_ptcb_refcount tid (decrement (s.ptcbs tid).refcount) s

  -- The state after a join.
  unfoldable pub joined : Procs W → Procs W
  unfolding released
  joined s =
      if ((released s).ptcbs tid).detached then released s else drop_ptcb cur tid (released s)

module _ {W : Type 0} (extra : ℕ → ℕ) (cur tid : ℕ) where
  pub waiting-IsCounted :
      (j : ℕ → ℕ) (s : Procs W)
      → count tid (s.pcbs cur).ptcb_list ≡ 1
      → IsCounted extra cur j s
      → IsCounted extra cur (more j tid) (waiting cur tid s)
  unfolding waiting
  waiting-IsCounted j s here v = record {
    once = v.once;
    held = λ a h. ground (arith, v.held a, here, h);
    refs = λ a h. ground (arith, v.refs a h, h);
  }

  removed_list :
      (a : ℕ) (s : Procs W)
      → count a ((removed cur tid s).pcbs cur).ptcb_list
        ≡ count a (remove tid (s.pcbs cur).ptcb_list)
  unfolding removed
  removed_list a s = ground arith

  removed-IsCounted :
      (j : ℕ → ℕ) (s : Procs W)
      → j tid ≡ 0
      → IsCounted extra cur j s
      → IsCounted extra cur j (removed cur tid s)
  unfolding removed
  removed-IsCounted j s nobody v = record {
    once =
        λ a. ground (arith, removed_list a s, count-remove a tid (s.pcbs cur).ptcb_list, v.once a);
    held = λ a h.
        ground (
          arith,
          removed_list a s,
          count-remove a tid (s.pcbs cur).ptcb_list,
          v.held a h,
          nobody,
          h,
        );
    refs = λ a h.
        v.refs a (
          ground (arith, removed_list a s, count-remove a tid (s.pcbs cur).ptcb_list, h, v.once a));
  }

  dropped-IsCounted :
      (j : ℕ → ℕ) (s : Procs W)
      → count tid (s.pcbs cur).ptcb_list ≡ 1
      → IsCounted extra cur j s
      → IsCounted extra cur j (drop_ptcb cur tid s)
  unfolding removed
  dropped-IsCounted j s here v = elim (Bool-cases (is_zero (s.ptcbs tid).refcount)) [
    | inl e ↦ rw e (removed-IsCounted j s (ground (arith, v.refs tid here, e)) v)
    | inr e ↦ rw e v
  ]

  released-IsCounted :
      (j : ℕ → ℕ) (s : Procs W)
      → 1 ≤ j tid
      → IsCounted extra cur j s
      → IsCounted extra cur (fewer j tid) (released cur tid s)
  unfolding released
  released-IsCounted j s some_one v = record {
    once = v.once;
    held = λ a h. ground (arith, v.held a, some_one, h);
    refs = λ a h. ground (arith, v.refs a h, some_one, h);
  }

  pub joined-IsCounted :
      (j : ℕ → ℕ) (s : Procs W)
      → 1 ≤ j tid
      → IsCounted extra cur j s
      → IsCounted extra cur (fewer j tid) (joined cur tid s)
  unfolding joined
  joined-IsCounted j s some_one v =
      let w = released-IsCounted j s some_one v in
      let here : count tid ((released cur tid s).pcbs cur).ptcb_list ≡ 1 = v.held tid some_one in
      elim (Bool-cases ((released cur tid s).ptcbs tid).detached) [
        | inl e ↦ rw e w
        | inr e ↦ rw e (dropped-IsCounted (fewer j tid) (released cur tid s) here w)
      ]
