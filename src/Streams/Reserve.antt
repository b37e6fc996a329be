-- ===== src/Streams/Reserve.antt =====
-- `FCB_reserve` as a whole.
use tiny_os_project.Prelude.{
  ℕ, ◌≡◌, refl, inl, inr, List, [], arith, Option, some, none, length, Bool, true, false, not, ◌&&◌,
  ap, ◌∙◌, sym, leb, count, reverse, Option-cases,
}
use tiny_os_project.Streams.{Kernel, find_fids, acquire_all, release_all, install, fcb_reserve}
use tiny_os_project.Streams.Refs.{Roomy, IsPending, IsCounted}
use tiny_os_project.Streams.Ids.{free_ids, firsts, find_fids-firsts}
use tiny_os_project.Streams.Fresh.{
  free_ids-Fresh, firsts-Fresh, missing, missing-firsts, count-reverse, length-reverse,
}
use tiny_os_project.Streams.Acquire.{
  install-IsCounted, Acquired, acquire_all-Acquired, release_all-IsCounted,
}

module _ {W : Type 0} where
  -- The ways in which `FCB_reserve` can end.
  data Ends (num : ℕ) (k : Kernel W) (out : Option (List ℕ × List ℕ) × Kernel W) : Type 0 where
    no_fids : find_fids num 0 k.fidt ≡ none → out ≡ (none, k) → Ends num k out
    no_blocks :
        (fids got : List ℕ) (k' : Kernel W)
        → find_fids num 0 k.fidt ≡ some fids
        → acquire_all num [] k ≡ (false, got, k')
        → out ≡ (none, release_all got k')
        → Ends num k out
    reserved :
        (fids got : List ℕ) (k' : Kernel W)
        → find_fids num 0 k.fidt ≡ some fids
        → acquire_all num [] k ≡ (true, got, k')
        → out ≡ (some (fids, reverse got), install fids (reverse got) k')
        → Ends num k out

  reserve-Ends : (num : ℕ) (k : Kernel W) → Ends num k (fcb_reserve num k)
  unfolding fcb_reserve
  reserve-Ends num k = elim (Option-cases (find_fids num 0 k.fidt)) [
    | inl e ↦ no_fids e (ground arith)
    | inr (fids, e) ↦ go (acquire_all num [] k) refl fids e
  ]
    where
      go :
          (a : Bool × List ℕ × Kernel W)
          → acquire_all num [] k ≡ a
          → (fids : List ℕ) → find_fids num 0 k.fidt ≡ some fids
          → Ends num k (fcb_reserve num k)
      go (true, got, k') a fids e = reserved fids got k' e a (ground arith)
      go (false, got, k') a fids e = no_blocks fids got k' e a (ground arith)

  Pending-reverse :
      (held : ℕ → ℕ) (got : List ℕ) (k : Kernel W)
      → IsPending held got k
      → IsPending held (reverse got) k
  Pending-reverse held got k v = record {
    table = v.table;
    each = λ f. rw (count-reverse f got) (v.each f);
  }

  -- The outcome of `FCB_reserve`, from those of its two searches.
  module _ {held : ℕ → ℕ} {k : Kernel W} (num : ℕ) (v : IsCounted held k) where
    acquired : Acquired held num [] k (acquire_all num [] k)
    acquired = acquire_all-Acquired held num [] k v

    found_lem : find_fids num 0 k.fidt ≡ firsts num (free_ids 0 k.fidt)
    found_lem = find_fids-firsts num k.fidt v.table

    -- Where every counter is right, `FCB_reserve` succeeds exactly when the process has `num` free
    -- identifiers and the file table has `num` free blocks.
    pub fcb_reserve-succeeds :
        missing (fcb_reserve num k).0
        ≡ not (leb num (length (free_ids 0 k.fidt)) && leb num (length k.freelist))
    fcb_reserve-succeeds = elim (reserve-Ends num k) [
      | no_fids e out ↦ rw out (ground (arith, found_lem, missing-firsts num (free_ids 0 k.fidt)))
      | no_blocks fids got k' e a out ↦
          rw out
            (ground (arith, found_lem, missing-firsts num (free_ids 0 k.fidt), acquired.enough))
      | reserved fids got k' e a out ↦
          rw out
            (ground (arith, found_lem, missing-firsts num (free_ids 0 k.fidt), acquired.enough))
    ]

    -- Where every counter is right with room in 32 bits, `FCB_reserve` keeps every reference
    -- counter right, whether it succeeds or fails.
    pub fcb_reserve-IsCounted : Roomy held → IsCounted held (fcb_reserve num k).1
    fcb_reserve-IsCounted room = elim (reserve-Ends num k) [
      | no_fids e out ↦ rw out v
      | no_blocks fids got k' e a out ↦
          rw out (release_all-IsCounted held got k' (rw a at acquired.pending)).0
      | reserved fids got k' e a out ↦ rw out (
          let done = rw a at acquired in
          let (fresh, size) =
            firsts-Fresh num 0 (free_ids 0 k.fidt) fids k.fidt (sym found_lem ∙ e)
              (free_ids-Fresh k.fidt [] 0 refl (omega (arith, v.table))) in
          install-IsCounted held fids (reverse got) 0 k' room
            (omega (arith, size, length-reverse got, done.number refl)) (rw done.table fresh)
            (Pending-reverse held got k' done.pending))
    ]

    -- Where every counter is right and `FCB_reserve` fails, the identifiers of the process and the
    -- stream objects are as before, the same blocks are free, and no block in use has changed.
    pub fcb_reserve-rolls_back :
        (fcb_reserve num k).0 ≡ none
        → let k' = (fcb_reserve num k).1 in
          (k'.fidt ≡ k.fidt)
          × (k'.objects ≡ k.objects)
          × ((f : ℕ) → count f k'.freelist ≡ count f k.freelist)
          × ((f : ℕ) → count f k.freelist ≡ 0 → k'.ft f ≡ k.ft f)
    fcb_reserve-rolls_back failed = elim (reserve-Ends num k) [
      | no_fids e out ↦ rw out (refl, refl, λ f. refl, λ f h. refl)
      | no_blocks fids got k' e a out ↦
          let (counted, table, objects, ft) =
            release_all-IsCounted held got k' (rw a at acquired.pending) in
          rw out (
            table ∙ (rw a at acquired.table),
            objects ∙ (rw a at acquired.objects),
            (λ f. ground (arith, v.each f, counted.each f, table, rw a at acquired.table)),
            (λ f h. ap (λ m. m f) ft ∙ (rw a at (acquired.used f h))),
          )
      | reserved fids got k' e a out ↦ absurd (cc)
    ]

    -- The arrays that it fills have `num` elements.
    pub fcb_reserve-number :
        (fids fcbs : List ℕ)
        → (fcb_reserve num k).0 ≡ some (fids, fcbs)
        → (length fids ≡ num) × (length fcbs ≡ num)
    fcb_reserve-number fids fcbs filled = elim (reserve-Ends num k) [
      | no_fids e out ↦ absurd (cc)
      | no_blocks fs got k' e a out ↦ absurd (cc)
      | reserved fs got k' e a out ↦
          let done = rw a at acquired in
          let (fresh, size) =
            firsts-Fresh num 0 (free_ids 0 k.fidt) fs k.fidt (sym found_lem ∙ e)
              (free_ids-Fresh k.fidt [] 0 refl (omega (arith, v.table))) in
          let same : (fids ≡ fs) × (fcbs ≡ reverse got) = (cc, cc) in
          (
            ap length same.0 ∙ size,
            ap length same.1 ∙ (omega (arith, length-reverse got, done.number refl)),
          )
    ]
