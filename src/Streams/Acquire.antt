-- ===== src/Streams/Acquire.antt =====
-- The loops of `FCB_reserve` that acquire blocks, release them and install them.
use tiny_os_project.Prelude.{
  ℕ, zero, suc, ◌+◌, ◌<◌, ◌≡◌, refl, inl, inr, List, [], ◌∷◌, arith, some, none, length, set, Bool,
  true, false, sym, leb, count, length-set, List-cases, subst,
}
use tiny_os_project.Streams.{
  Kernel, max_fileid, fid_entry, set_refcount, release_fcb, fcb_incref, acquire_all, release_all,
  install,
}
use tiny_os_project.Streams.Refs.{
  occurs-set, Roomy, IsPending, IsCounted, release-IsPending, acquire-IsPending,
}
use tiny_os_project.Streams.Fresh.{Fresh, Fresh-set}

module _ {W : Type 0} where
  -- One round of the last loop.
  store_new :
      {held : ℕ → ℕ} {k : Kernel W} (fid f : ℕ) (pending : List ℕ)
      → Roomy held
      → fid < max_fileid
      → fid_entry k.fidt fid ≡ none
      → IsPending held (f ∷ pending) k
      → IsPending held pending (fcb_incref f (record k { fidt = set k.fidt fid (some f) }))
  store_new {k = k} fid f pending room h e v = record {
    table = ground (arith, v.table, length-set k.fidt fid (some f));
    each = λ g. ground (arith, v.each g, v.table, occurs-set g k.fidt fid (some f), room g);
  }

  pub install-IsCounted :
      (held : ℕ → ℕ) (fids fcbs : List ℕ) (lo : ℕ) (k : Kernel W)
      → Roomy held
      → length fids ≡ length fcbs
      → Fresh lo fids k.fidt
      → IsPending held fcbs k
      → IsCounted held (install fids fcbs k)
  unfolding install
  install-IsCounted held [] [] lo k room e r v = v
  install-IsCounted held [] (f ∷ fcbs) lo k room e r v = absurd (omega arith)
  install-IsCounted held (fid ∷ fids) [] lo k room e r v = absurd (omega arith)
  install-IsCounted held (fid ∷ fids) (f ∷ fcbs) lo k room e (a, b, c, r) v =
      install-IsCounted held fids fcbs (suc fid) _ room (omega arith)
        (Fresh-set (suc fid) fid fids k.fidt (some f) (omega arith) r)
        (store_new fid f fcbs room b c v)

  -- What the second loop has done when it stops.
  pub record Acquired (held : ℕ → ℕ) (left : ℕ) (got : List ℕ) (k : Kernel W)
      (out : Bool × List ℕ × Kernel W) : Type 0 where
    pub pending : IsPending held out.1 out.2
    pub table : out.2.fidt ≡ k.fidt
    pub objects : out.2.objects ≡ k.objects
    pub used : (f : ℕ) → count f k.freelist ≡ 0 → out.2.ft f ≡ k.ft f
    pub enough : out.0 ≡ leb left (length k.freelist)
    pub number : out.0 ≡ true → length out.1 ≡ length got + left

  acquire_none :
      (held : ℕ → ℕ) (got : List ℕ) (k : Kernel W)
      → IsPending held got k
      → Acquired held 0 got k (acquire_all 0 got k)
  unfolding acquire_all
  acquire_none held got k v = record {
    pending = v;
    table = refl;
    objects = refl;
    used = λ f h. refl;
    enough = ground arith;
    number = λ h. omega arith;
  }

  acquire_all-empty :
      (left : ℕ) (got : List ℕ) (k : Kernel W)
      → k.freelist ≡ []
      → acquire_all (suc left) got k ≡ (false, got, k)
  unfolding acquire_all
  acquire_all-empty left got k e = rw e

  acquire_all-cons :
      (left : ℕ) (got : List ℕ) (k : Kernel W) (f : ℕ) (rest : List ℕ)
      → k.freelist ≡ f ∷ rest
      → acquire_all (suc left) got k
        ≡ acquire_all left (f ∷ got) (set_refcount f 0 (record k { freelist = rest }))
  unfolding acquire_all
  acquire_all-cons left got k f rest e = rw e

  acquire_one :
      (held : ℕ → ℕ) (left : ℕ) (got : List ℕ) (k : Kernel W) (f : ℕ) (rest : List ℕ)
      (out : Bool × List ℕ × Kernel W)
      → k.freelist ≡ f ∷ rest
      → Acquired held left (f ∷ got) (set_refcount f 0 (record k { freelist = rest })) out
      → Acquired held (suc left) got k out
  acquire_one held left got k f rest out e a = record {
    pending = a.pending;
    table = a.table;
    objects = a.objects;
    used = λ g h. ground (arith, a.used g);
    enough = ground (arith, a.enough);
    number = λ h. omega (arith, a.number h);
  }

  pub acquire_all-Acquired :
      (held : ℕ → ℕ) (left : ℕ) (got : List ℕ) (k : Kernel W)
      → IsPending held got k
      → Acquired held left got k (acquire_all left got k)
  acquire_all-Acquired held zero got k v = acquire_none held got k v
  acquire_all-Acquired held (suc left) got k v = elim (List-cases k.freelist) [
    | inl e ↦
        subst (Acquired held (suc left) got k) (sym (acquire_all-empty left got k e)) (record {
          pending = v;
          table = refl;
          objects = refl;
          used = λ f h. refl;
          enough = ground arith;
          number = λ h. cc;
        })
    | inr (f, rest, e) ↦
        subst (Acquired held (suc left) got k) (sym (acquire_all-cons left got k f rest e)) (
          acquire_one held left got k f rest _ e
            (acquire_all-Acquired held left (f ∷ got) _ (acquire-IsPending f rest got e v)))
  ]

  pub release_all-IsCounted :
      (held : ℕ → ℕ) (got : List ℕ) (k : Kernel W)
      → IsPending held got k
      → IsCounted held (release_all got k)
        × ((release_all got k).fidt ≡ k.fidt)
        × ((release_all got k).objects ≡ k.objects)
        × ((release_all got k).ft ≡ k.ft)
  unfolding release_all
  release_all-IsCounted held [] k v = (v, refl, refl, refl)
  release_all-IsCounted held (f ∷ got) k v =
      release_all-IsCounted held got (release_fcb f k) (release-IsPending f got v)
