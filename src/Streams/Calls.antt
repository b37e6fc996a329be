-- ===== src/Streams/Calls.antt =====
-- `sys_Close`, `sys_Read` and `sys_Write`.
use tiny_os_project.Prelude.{
  if◌then◌else◌, ◌==◌, ◌+◌, ◌%◌, ◌^◌, ◌-◌, length, ℕ, ◌≤◌, ◌<◌, ◌≡◌, ◌≢◌, refl, inl, inr, arith,
  Option, some, none, set, set, true, Option-cases, get_or-set_ne, get_or-set_self, sym, ap,
}
use tiny_os_project.Prelude.Int.{ℤ, pos, negsuc, in_range, to_nat}
use tiny_os_project.Streams.{
  Kernel, Driver, max_fileid, fid_entry, fcb_incref, fcb_decref, get_fcb, sys_close, sys_read,
  sys_write,
}
use tiny_os_project.Streams.Refs.{
  points-le-occurs, occurs-le-length, bump, Roomy, refs, IsCounted, clear-IsPending,
  incref-IsCounted, decref-IsCounted,
}

pub in_range-lt : (n : ℕ) (x : ℤ) → in_range n x ≡ true → to_nat x < n
in_range-lt n (pos x) h = ground arith
in_range-lt n (negsuc x) h = cc

module _ {W : Type 0} where
  -- A successful lookup is an entry in range.
  pub get_fcb-some :
      (fid : ℤ) (k : Kernel W) (f : ℕ)
      → get_fcb fid k ≡ some f
      → (to_nat fid < max_fileid) × (fid_entry k.fidt (to_nat fid) ≡ some f)
  unfolding get_fcb
  get_fcb-some fid k f e = ground (arith, in_range-lt max_fileid fid)

  pub get_fcb-legal :
      (fid : ℤ) (k : Kernel W) (f : ℕ) → get_fcb fid k ≡ some f → in_range max_fileid fid ≡ true
  unfolding get_fcb
  get_fcb-legal fid k f e = ground arith

  -- A lookup after a write of the file table.
  pub get_fcb-set_self :
      (fid : ℤ) (k k' : Kernel W) (o : Option ℕ)
      → length k.fidt ≡ max_fileid
      → in_range max_fileid fid ≡ true
      → k'.fidt ≡ set k.fidt (to_nat fid) o
      → get_fcb fid k' ≡ o
  unfolding get_fcb
  get_fcb-set_self fid k k' o table legal e =
      let small = in_range-lt max_fileid fid legal in
      rw (legal, e) (get_or-set_self k.fidt (to_nat fid) o none (ground (arith, table)))

  pub get_fcb-set_ne :
      (fid written : ℤ) (k k' : Kernel W) (o : Option ℕ)
      → in_range max_fileid written ≡ true
      → k'.fidt ≡ set k.fidt (to_nat written) o
      → fid ≢ written
      → get_fcb fid k' ≡ get_fcb fid k
  unfolding get_fcb
  get_fcb-set_ne fid (negsuc w) k k' o legal e other = cc
  get_fcb-set_ne (negsuc i) (pos w) k k' o legal e other = refl
  get_fcb-set_ne (pos i) (pos w) k k' o legal e other =
      rw (e, get_or-set_ne k.fidt {i = w} {j = i} o none (λ q. other (ap pos (sym q))))

  pub free_entry :
      (fid : ℤ) (k : Kernel W)
      → in_range max_fileid fid ≡ true
      → get_fcb fid k ≡ none
      → fid_entry k.fidt (to_nat fid) ≡ none
  unfolding get_fcb
  free_entry fid k h e = rw h at e

  pub used_of_entry :
      (held : ℕ → ℕ) (k : Kernel W) (fid f : ℕ) → fid_entry k.fidt fid ≡ some f → 1 ≤ refs held k f
  used_of_entry held k fid f e = ground (arith, points-le-occurs f k.fidt fid)

-- What a driver's calls may do to the streams while they wait: any calls of other threads, so long as
-- the counters stay right and the references from elsewhere stay as many.
pub record KeepsCounts {W : Type 0} (d : Driver W) : Type 0 where
  pub reading :
      (ops : _) (devread : _) (obj : Option ℕ) (buf : ℕ → ℕ) (n : ℕ) (k : Kernel W) (held : ℕ → ℕ)
      → d.read_op ops ≡ some devread
      → IsCounted held k
      → IsCounted held (devread obj buf n k).2
  pub writing :
      (ops : _) (devwrite : _) (obj : Option ℕ) (buf : ℕ → ℕ) (n : ℕ) (k : Kernel W) (held : ℕ → ℕ)
      → d.write_op ops ≡ some devwrite
      → IsCounted held k
      → IsCounted held (devwrite obj buf n k).1

module _ {W : Type 0} (d : Driver W) {held : ℕ → ℕ} (room : Roomy held) {k : Kernel W}
    (v : IsCounted held k) where
  -- Where every counter is right with room in 32 bits, `sys_Close` of any identifier, legal or not,
  -- open or not, keeps every reference counter right.
  pub sys_close-IsCounted : (fd : ℤ) → IsCounted held (sys_close d fd k).1
  unfolding sys_close
  sys_close-IsCounted fd = elim (Option-cases (get_fcb fd k)) [
    | inl e ↦ rw (e, sys_close) v
    | inr (f, e) ↦
        let (h, entry) = get_fcb-some fd k f e in
        rw (e, sys_close) (decref-IsCounted d f room (clear-IsPending (to_nat fd) f h entry v))
  ]

  -- Where every counter is right with room in 32 bits, `sys_Read` keeps every reference counter
  -- right, if what happens while the driver waits keeps them right and leaves the references from
  -- elsewhere as many.
  pub sys_read-IsCounted :
      KeepsCounts d → (fd : ℤ) (buf : ℕ → ℕ) (n : ℕ) → IsCounted held (sys_read d fd buf n k).2
  unfolding sys_read
  sys_read-IsCounted keeps fd buf n = elim (Option-cases (get_fcb fd k)) [
    | inl e ↦ rw (e, sys_read) v
    | inr (f, e) ↦
        let entry = (get_fcb-some fd k f e).1 in
        let k1 = incref-IsCounted f room (used_of_entry held k (to_nat fd) f entry) v in
        rw (e, sys_read)
          (elim (Option-cases (d.read_op (k.ft f).streamfunc)) [
            | inl none_op ↦ rw none_op (decref-IsCounted d f room k1)
            | inr (devread, op) ↦ rw op (
                decref-IsCounted d f room (
                  keeps.reading (k.ft f).streamfunc devread (k.ft f).streamobj buf n
                    (fcb_incref f k) (bump held f) op k1))
          ])
  ]

  -- Where every counter is right with room in 32 bits, `sys_Write` keeps every reference counter
  -- right, if what happens while the driver waits keeps them right and leaves the references from
  -- elsewhere as many.
  pub sys_write-IsCounted :
      KeepsCounts d → (fd : ℤ) (buf : ℕ → ℕ) (n : ℕ) → IsCounted held (sys_write d fd buf n k).1
  unfolding sys_write
  sys_write-IsCounted keeps fd buf n = elim (Option-cases (get_fcb fd k)) [
    | inl e ↦ rw (e, sys_write) v
    | inr (f, e) ↦
        let entry = (get_fcb-some fd k f e).1 in
        let k1 = incref-IsCounted f room (used_of_entry held k (to_nat fd) f entry) v in
        rw (e, sys_write)
          (elim (Option-cases (d.write_op (k.ft f).streamfunc)) [
            | inl none_op ↦ rw none_op (decref-IsCounted d f room k1)
            | inr (devwrite, op) ↦ rw op (
                decref-IsCounted d f room (
                  keeps.writing (k.ft f).streamfunc devwrite (k.ft f).streamobj buf n
                    (fcb_incref f k) (bump held f) op k1))
          ])
  ]

  -- A decrement changes no lookup.
  look :
      (fd : ℤ) (f : ℕ)
      → get_fcb fd (record k { fidt = set k.fidt (to_nat fd) none }) ≡ none
      → get_fcb fd (fcb_decref d f (record k { fidt = set k.fidt (to_nat fd) none })).1 ≡ none
  unfolding fcb_decref get_fcb
  look fd f e = ground arith

  -- Where every counter is right with room in 32 bits, closing an open identifier calls `Close` of
  -- its stream and returns what that returns exactly when this was the last reference to the
  -- stream; else it returns 0 and touches no stream object; afterwards the identifier is closed.
  pub sys_close_last :
      (fd : ℤ) (f : ℕ)
      → get_fcb fd k ≡ some f
      → let (r, k') = sys_close d fd k in
        let (closed, objects) = d.close_op (k.ft f).streamfunc (k.ft f).streamobj k.objects in
        (r ≡ (if refs held k f == 1 then closed else pos 0))
        × (k'.objects ≡ (if refs held k f == 1 then objects else k.objects))
        × (get_fcb fd k' ≡ none)
  unfolding sys_close fcb_decref
  sys_close_last fd f e =
      let (h, entry) = get_fcb-some fd k f e in
      let one : ((k.ft f).refcount + (2 ^ 32 - 1)) % 2 ^ 32 ≡ refs held k f - 1 = ground (
        arith,
        v.each f,
        v.table,
        room f,
        occurs-le-length f k.fidt,
        used_of_entry held k (to_nat fd) f entry,
      ) in
      let some_left = used_of_entry held k (to_nat fd) f entry in
      let legal = get_fcb-legal fd k f e in
      let gone : get_fcb fd (record k { fidt = set k.fidt (to_nat fd) none }) ≡ none =
        get_fcb-set_self fd k (record k { fidt = set k.fidt (to_nat fd) none }) none v.table legal
          refl in
      rw (e, sys_close)
        (ground (arith, one, some_left), ground (arith, one, some_left), look fd f gone)
