-- ===== src/Streams/Dup.antt =====
-- `sys_Dup2`.
use tiny_os_project.Prelude.{
  ℕ, ◌≤◌, ◌<◌, ◌≡◌, ◌≢◌, refl, inl, inr, List, arith, Option, some, none, length, set, true,
  Bool-cases, Option-cases, get_or-set_ne, get_or-set_self, ◌↔◌, not, ◌&&◌, sym, ◌∙◌, ap, set-set,
  subst,
}
use tiny_os_project.Prelude.Int.{ℤ, pos, minus_one, in_range, to_nat}
use tiny_os_project.Streams.{
  Kernel, Driver, max_fileid, fid_entry, fcb_incref, fcb_decref, get_fcb, sys_dup2, drop_new,
  same_fcb,
}
use tiny_os_project.Streams.Refs.{
  Roomy, refs, IsCounted, clear-IsPending, store-IsPending, incref-IsCounted, decref-IsCounted,
}
use tiny_os_project.Streams.Calls.{
  get_fcb-some, get_fcb-legal, get_fcb-set_self, get_fcb-set_ne, free_entry, in_range-lt,
  used_of_entry,
}

module _ {W : Type 0} (d : Driver W) where
  -- The decrement neither reads nor writes the file table of the process.
  decref-table :
      (f : ℕ) (k : Kernel W) (t : List (Option ℕ))
      → (fcb_decref d f (record k { fidt = t })).1 ≡ record (fcb_decref d f k).1 { fidt = t }
  unfolding fcb_decref
  decref-table f k t = ground arith

  fidt-decref : (f : ℕ) (k : Kernel W) → (fcb_decref d f k).1.fidt ≡ k.fidt
  unfolding fcb_decref
  fidt-decref f k = ground arith

  -- The write of `sys_Dup2` once both identifiers are found good.
  abbrev replaced : ℕ → ℕ → Option ℕ → Kernel W → Kernel W
  replaced old newfd new k =
      let k1 = fcb_incref old (drop_new d new k) in
      record k1 { fidt = set k1.fidt newfd (some old) }

  module _ {held : ℕ → ℕ} (room : Roomy held) {k : Kernel W} (v : IsCounted held k)
      (oldfd newfd old : ℕ) (small : newfd < max_fileid)
      (source : fid_entry k.fidt oldfd ≡ some old) where
    replaced-IsCounted_free :
        fid_entry k.fidt newfd ≡ none → IsCounted held (replaced old newfd none k)
    replaced-IsCounted_free e =
        store-IsPending newfd old small e
          (incref-IsCounted old room (used_of_entry held k oldfd old source) v)

    replaced-IsCounted_open :
        (new : ℕ)
        → fid_entry k.fidt newfd ≡ some new
        → oldfd ≢ newfd
        → IsCounted held (replaced old newfd (some new) k)
    replaced-IsCounted_open new e apart = subst (IsCounted held) same (
        store-IsPending newfd old small cleared (
          incref-IsCounted old room still
            (decref-IsCounted d new room (clear-IsPending newfd new small e v))))
      where
        k0 : Kernel W
        k0 = record k { fidt = set k.fidt newfd none }

        cleared : fid_entry (fcb_decref d new k0).1.fidt newfd ≡ none
        cleared =
            rw (fidt-decref new k0)
              (get_or-set_self k.fidt newfd none none (ground (arith, v.table)))

        still : 1 ≤ refs held (fcb_decref d new k0).1 old
        still =
            used_of_entry held (fcb_decref d new k0).1 oldfd old
              (rw (fidt-decref new k0, get_or-set_ne k.fidt none none (λ e. apart (sym e))) source)

        same :
            record (fcb_incref old (fcb_decref d new k0).1) {
              fidt = set (fcb_decref d new k0).1.fidt newfd (some old);
            }
            ≡ replaced old newfd (some new) k
        same = rw (decref-table new k (set k.fidt newfd none), set-set, fidt-decref new k)

  -- The ways in which `sys_Dup2` can end.
  data Ends (oldfd newfd : ℤ) (k : Kernel W) (out : ℤ × Kernel W) : Type 0 where
    refused : out ≡ (minus_one, k) → Ends oldfd newfd k out
    unchanged :
        (old : ℕ)
        → get_fcb oldfd k ≡ some old
        → get_fcb newfd k ≡ some old
        → out ≡ (pos 0, k)
        → Ends oldfd newfd k out
    moved :
        (old : ℕ)
        → get_fcb oldfd k ≡ some old
        → get_fcb newfd k ≢ some old
        → in_range max_fileid newfd ≡ true
        → out ≡ (pos 0, replaced old (to_nat newfd) (get_fcb newfd k) k)
        → Ends oldfd newfd k out

  accepted :
      (oldfd newfd : ℤ) (k : Kernel W) (old : ℕ)
      → in_range max_fileid newfd ≡ true
      → get_fcb oldfd k ≡ some old
      → sys_dup2 d oldfd newfd k ≢ (minus_one, k)
  unfolding sys_dup2
  accepted oldfd newfd k old legal source e = ground (arith, get_fcb-legal oldfd k old source)

  same_fcb_iff : (f : ℕ) (o : Option ℕ) → (same_fcb d f o ≡ true) ↔ (o ≡ some f)
  same_fcb_iff f o = ground arith

  dup2-Ends : (oldfd newfd : ℤ) (k : Kernel W) → Ends oldfd newfd k (sys_dup2 d oldfd newfd k)
  unfolding sys_dup2
  dup2-Ends oldfd newfd k =
      elim (Bool-cases (not (in_range max_fileid oldfd && in_range max_fileid newfd))) [
        | inl bad ↦ refused (rw bad)
        | inr legal ↦ elim (Option-cases (get_fcb oldfd k)) [
          | inl e ↦ refused (rw (legal, e))
          | inr (old, e) ↦ elim (Bool-cases (same_fcb d old (get_fcb newfd k))) [
            | inl same ↦
                unchanged old e ((same_fcb_iff old (get_fcb newfd k)).0 same) (rw (legal, e, same))
            | inr other ↦
                moved old e (λ q. ground (arith, (same_fcb_iff old (get_fcb newfd k)).1 q))
                  (ground arith) (rw (legal, e, other))
          ]
        ]
      ]

  module _ {held : ℕ → ℕ} (room : Roomy held) {k : Kernel W} (v : IsCounted held k)
      (oldfd newfd : ℤ) where
    moved-IsCounted :
        (old : ℕ)
        → get_fcb oldfd k ≡ some old
        → get_fcb newfd k ≢ some old
        → in_range max_fileid newfd ≡ true
        → IsCounted held (replaced old (to_nat newfd) (get_fcb newfd k) k)
    moved-IsCounted old e other legal =
        let (small, source) = get_fcb-some oldfd k old e in
        let fits = in_range-lt max_fileid newfd legal in
        elim (Option-cases (get_fcb newfd k)) [
          | inl n ↦ rw n (
              replaced-IsCounted_free room v (to_nat oldfd) (to_nat newfd) old fits source
                (free_entry newfd k legal n))
          | inr (new, n) ↦ rw n (
              replaced-IsCounted_open room v (to_nat oldfd) (to_nat newfd) old fits source new
                (get_fcb-some newfd k new n).1
                (λ q. other (
                  n
                  ∙ (sym (get_fcb-some newfd k new n).1
                      ∙ (ap (fid_entry k.fidt) (sym q) ∙ source)))))
        ]

    -- Where the references from elsewhere leave room in the 32-bit counter and every counter is
    -- right, `sys_Dup2` keeps every reference counter right, on every branch.
    pub sys_dup2-IsCounted : IsCounted held (sys_dup2 d oldfd newfd k).1
    sys_dup2-IsCounted = elim (dup2-Ends oldfd newfd k) [
      | refused e ↦ rw e v
      | unchanged old a b e ↦ rw e v
      | moved old a b legal e ↦ rw e (moved-IsCounted old a b legal)
    ]

  replaced-fidt :
      (old newfd : ℕ) (new : Option ℕ) (k : Kernel W)
      → (replaced old newfd new k).fidt ≡ set k.fidt newfd (some old)
  replaced-fidt old newfd none k = refl
  replaced-fidt old newfd (some new) k = rw (fidt-decref new k)

  -- Where the table has its 16 entries, the second identifier is legal and the first is open,
  -- `sys_Dup2` returns 0, both identifiers refer to the stream of the first, and every other
  -- identifier refers to what it did.
  pub sys_dup2-shares :
      (oldfd newfd : ℤ) (k : Kernel W) (old : ℕ)
      → length k.fidt ≡ max_fileid
      → in_range max_fileid newfd ≡ true
      → get_fcb oldfd k ≡ some old
      → let (r, k') = sys_dup2 d oldfd newfd k in
        (r ≡ pos 0)
        × (get_fcb newfd k' ≡ some old)
        × (get_fcb oldfd k' ≡ some old)
        × ((fd : ℤ) → fd ≢ newfd → get_fcb fd k' ≡ get_fcb fd k)
  sys_dup2-shares oldfd newfd k old table legal source = elim (dup2-Ends oldfd newfd k) [
    | refused e ↦ absurd (accepted oldfd newfd k old legal source e)
    | unchanged a b c e ↦ rw e (refl, c ∙ (sym b ∙ source), source, λ fd other. refl)
    | moved a b c fits e ↦
        let k' = replaced a (to_nat newfd) (get_fcb newfd k) k in
        let t = replaced-fidt a (to_nat newfd) (get_fcb newfd k) k in
        let kept =
          λ (fd : ℤ) (other : fd ≢ newfd). get_fcb-set_ne fd newfd k k' (some a) legal t other in
        rw e (
          refl,
          get_fcb-set_self newfd k k' (some a) table legal t ∙ (sym b ∙ source),
          kept oldfd (λ q. c (ap (λ fd. get_fcb fd k) (sym q) ∙ b)) ∙ source,
          kept,
        )
  ]
