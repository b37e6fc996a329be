-- ===== src/Streams/Refs.antt =====
-- Who refers to a file control block, and what that says of its reference counter.
use tiny_os_project.Prelude.{
  ℕ, zero, suc, ◌+◌, ◌^◌, ◌≤◌, ◌<◌, ◌≡◌, ◌⊎◌, List, [], ◌∷◌, arith, Option, some, none, length,
  length-set, count, count-append, set, ◌==◌, if◌then◌else◌, zero,
}
use tiny_os_project.Streams.{
  Kernel, Driver, max_fileid, max_files, fid_entry, set_refcount, release_fcb, fcb_incref,
  fcb_decref,
}

abbrev pub points : ℕ → Option ℕ → ℕ
points f none = 0
points f (some g) = if f == g then 1 else 0

-- How many identifiers of a file table refer to the block `f`.
abbrev pub occurs : ℕ → List (Option ℕ) → ℕ
occurs f [] = 0
occurs f (o ∷ t) = points f o + occurs f t

pub occurs-set :
    (f : ℕ) (t : List (Option ℕ)) (i : ℕ) (o : Option ℕ)
    → i < length t
    → occurs f (set t i o) + points f (fid_entry t i) ≡ occurs f t + points f o
occurs-set f [] i o h = absurd (omega arith)
occurs-set f (p ∷ t) zero o h = omega arith
occurs-set f (p ∷ t) (suc i) o h = omega (arith, occurs-set f t i o (omega arith))

pub points-le-occurs : (f : ℕ) (t : List (Option ℕ)) (i : ℕ) → points f (fid_entry t i) ≤ occurs f t
points-le-occurs f [] i = omega arith
points-le-occurs f (p ∷ t) zero = omega arith
points-le-occurs f (p ∷ t) (suc i) = omega (arith, points-le-occurs f t i)

points_bound : (f : ℕ) (o : Option ℕ) → points f o ≤ 1
points_bound f none = omega arith
points_bound f (some g) = ground arith

pub occurs-le-length : (f : ℕ) (t : List (Option ℕ)) → occurs f t ≤ length t
occurs-le-length f [] = omega arith
occurs-le-length f (o ∷ t) = omega (arith, points_bound f o, occurs-le-length f t)

-- One more reference to `f` than `held` says.
abbrev pub bump : (ℕ → ℕ) → ℕ → ℕ → ℕ
bump held f g = held g + (if g == f then 1 else 0)

-- The references from elsewhere leave room in a 32-bit counter.
abbrev pub Roomy : (ℕ → ℕ) → Type 0
Roomy held = (f : ℕ) → held f + 32 < 2 ^ 32

module _ {W : Type 0} where
  -- `held f` counts the references to `f` from other file tables and from calls in progress.
  abbrev pub refs : (ℕ → ℕ) → Kernel W → ℕ → ℕ
  refs held k f = occurs f k.fidt + held f

  -- The block `f` is in the free list with no reference, or acquired and not installed yet, or in use
  -- with its references counted, or no block of the table.
  abbrev pub At : (ℕ → ℕ) → List ℕ → Kernel W → ℕ → Type 0
  At held pending k f =
      (count f k.freelist ≡ 1) × (count f pending ≡ 0) × (refs held k f ≡ 0) × (f < max_files)
      ⊎ (count f k.freelist ≡ 0)
        × (count f pending ≡ 1)
        × (refs held k f ≡ 0)
        × (f < max_files)
        × ((k.ft f).refcount ≡ 0)
      ⊎ (count f k.freelist ≡ 0)
        × (count f pending ≡ 0)
        × (1 ≤ refs held k f)
        × (f < max_files)
        × ((k.ft f).refcount ≡ refs held k f)
      ⊎ (count f k.freelist ≡ 0) × (count f pending ≡ 0) × (refs held k f ≡ 0) × (max_files ≤ f)

  pub record IsPending (held : ℕ → ℕ) (pending : List ℕ) (k : Kernel W) : Type 0 where
    pub table : length k.fidt ≡ max_fileid
    pub each : (f : ℕ) → At held pending k f

  abbrev pub IsCounted : (ℕ → ℕ) → Kernel W → Type 0
  IsCounted held k = IsPending held [] k

  pub release-IsPending :
      {held : ℕ → ℕ} {k : Kernel W} (f : ℕ) (pending : List ℕ)
      → IsPending held (f ∷ pending) k
      → IsPending held pending (release_fcb f k)
  release-IsPending {k = k} f pending v = record {
    table = v.table;
    each = λ g. ground (arith, v.each g, count-append g k.freelist (f ∷ []));
  }

  pub acquire-IsPending :
      {held : ℕ → ℕ} {k : Kernel W} (f : ℕ) (rest pending : List ℕ)
      → k.freelist ≡ f ∷ rest
      → IsPending held pending k
      → IsPending held (f ∷ pending) (set_refcount f 0 (record k { freelist = rest }))
  acquire-IsPending {k = k} f rest pending e v = record {
    table = v.table;
    each = λ g. ground (arith, v.each g);
  }

  -- A reference moves from the file table to the call that removed it.
  pub clear-IsPending :
      {held : ℕ → ℕ} {k : Kernel W} (fid f : ℕ)
      → fid < max_fileid
      → fid_entry k.fidt fid ≡ some f
      → IsCounted held k
      → IsCounted (bump held f) (record k { fidt = set k.fidt fid none })
  clear-IsPending {k = k} fid f h e v = record {
    table = ground (arith, v.table, length-set k.fidt fid none);
    each = λ g. ground (arith, v.each g, v.table, occurs-set g k.fidt fid none);
  }

  -- And the other way.
  pub store-IsPending :
      {held : ℕ → ℕ} {k : Kernel W} (fid f : ℕ)
      → fid < max_fileid
      → fid_entry k.fidt fid ≡ none
      → IsCounted (bump held f) k
      → IsCounted held (record k { fidt = set k.fidt fid (some f) })
  store-IsPending {k = k} fid f h e v = record {
    table = ground (arith, v.table, length-set k.fidt fid (some f));
    each = λ g. ground (arith, v.each g, v.table, occurs-set g k.fidt fid (some f));
  }

  -- A reference to a block in use is counted.
  pub incref-IsCounted :
      {held : ℕ → ℕ} {k : Kernel W} (f : ℕ)
      → Roomy held
      → 1 ≤ refs held k f
      → IsCounted held k
      → IsCounted (bump held f) (fcb_incref f k)
  incref-IsCounted {k = k} f room used v = record {
    table = v.table;
    each = λ g. ground (arith, v.each g, v.table, room f, occurs-le-length f k.fidt);
  }

  module _ (d : Driver W) where
    pub decref-IsCounted :
        {held : ℕ → ℕ} {k : Kernel W} (f : ℕ)
        → Roomy held
        → IsCounted (bump held f) k
        → IsCounted held (fcb_decref d f k).1
    unfolding fcb_decref
    decref-IsCounted {k = k} f room v = record {
      table = ground (arith, v.table);
      each = λ g. ground (
        arith,
        v.each g,
        v.each f,
        v.table,
        room f,
        occurs-le-length f k.fidt,
        count-append g k.freelist (f ∷ []),
      );
    }
