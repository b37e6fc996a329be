-- ===== src/Streams.antt =====
-- kernel_streams.c, the file table and the calls on file identifiers. An `FCB *` is the index of
-- the block in `FT`. The stream objects and their operations are an interface.
pub mod Initial
pub mod Refs
pub mod Table
pub mod Calls
pub mod Dup
pub mod Fresh
pub mod Acquire
pub mod Reserve
pub mod Ids
pub mod Tests
use tiny_os_project.Prelude.{
  ℕ, zero, suc, ◌+◌, ◌-◌, ◌%◌, ◌^◌, Bool, true, false, not, ◌&&◌, ◌||◌, Option, none, some, List,
  [], ◌∷◌, ◌++◌, ltb, ◌==◌, if◌then◌else◌, update, get_or, set, replicate, reverse,
}
use tiny_os_project.Prelude.Int.{ℤ, pos, minus_one, in_range, to_nat}
use tiny_os_project.Devices.{FileOps, DeviceType, dev_null, dev_serial, device_open, device_no}

abbrev pub max_fileid : ℕ
max_fileid = 16

abbrev pub max_files : ℕ
max_files = 65536

-- `streamobj` is `none` for NULL.
pub record Fcb : Type 0 where
  pub refcount : ℕ
  pub streamobj : Option ℕ
  pub streamfunc : FileOps

-- The table `FT`, the list `FCB_freelist`, the file table `FIDT` of the current process, and the
-- state `objects` of whatever stands behind the streams.
pub record Kernel (W : Type 0) : Type 0 where
  pub ft : ℕ → Fcb
  pub freelist : List ℕ
  pub fidt : List (Option ℕ)
  pub objects : W

-- `Close` does not wait. While `Read` and `Write` wait, other threads make calls: they are given the
-- whole state. `none` stands for a NULL pointer in the table of operations.
pub record Driver (W : Type 0) : Type 0 where
  pub close_op : FileOps → Option ℕ → W → ℤ × W
  pub read_op : FileOps → Option (Option ℕ → (ℕ → ℕ) → ℕ → Kernel W → ℤ × (ℕ → ℕ) × Kernel W)
  pub write_op : FileOps → Option (Option ℕ → (ℕ → ℕ) → ℕ → Kernel W → ℤ × Kernel W)

-- `cur->FIDT[f]`, for `f` in range.
abbrev pub fid_entry : List (Option ℕ) → ℕ → Option ℕ
fid_entry t f = get_or t f none

abbrev pub null : Option ℕ → Bool
null none = true
null (some f) = false

-- The first free identifier from `f` on, or `max_fileid`; `left` is `max_fileid - f`.
unfoldable pub next_fid : (left f : ℕ) → List (Option ℕ) → ℕ
next_fid zero f t = f
next_fid (suc left) f t =
    let rest = next_fid left (f + 1) t in if null (fid_entry t f) then f else rest

abbrev pub prepend : ℕ → Option (List ℕ) → Option (List ℕ)
prepend f none = none
prepend f (some l) = some (f ∷ l)

-- The first loop of `FCB_reserve`: `num` distinct free identifiers from `f` on.
unfoldable pub find_fids : (num f : ℕ) → List (Option ℕ) → Option (List ℕ)
unfolding next_fid
find_fids zero f t = some []
find_fids (suc num) f t =
    let g = next_fid (max_fileid - f) f t in
    let rest = prepend g (find_fids num (g + 1) t) in if g == max_fileid then none else rest

module _ {W : Type 0} where
  abbrev pub set_refcount : ℕ → ℕ → Kernel W → Kernel W
  set_refcount f n k = record k { ft = update k.ft f (record (k.ft f) { refcount = n }) }

  unfoldable pub acquire_fcb : Kernel W → Option ℕ × Kernel W
  acquire_fcb k = elim k.freelist [
    | [] ↦ (none, k)
    | f ∷ rest ↦ (some f, set_refcount f 0 (record k { freelist = rest }))
  ]

  abbrev pub release_fcb : ℕ → Kernel W → Kernel W
  release_fcb f k = record k { freelist = k.freelist ++ f ∷ [] }

  -- `refcount` is an `unsigned int`.
  abbrev pub fcb_incref : ℕ → Kernel W → Kernel W
  fcb_incref f k = set_refcount f (((k.ft f).refcount + 1) % 2 ^ 32) k

  -- The second loop: the blocks acquired so far, the last one first, and whether all were found.
  unfoldable pub acquire_all : (left : ℕ) → List ℕ → Kernel W → Bool × List ℕ × Kernel W
  unfolding acquire_fcb
  acquire_all zero got k = (true, got, k)
  acquire_all (suc left) got k =
      let (fcb, k') = acquire_fcb k in
      elim fcb [ none ↦ (false, got, k') | some f ↦ acquire_all left (f ∷ got) k' ]

  -- The loop that rolls back: the last block acquired is released first.
  unfoldable pub release_all : List ℕ → Kernel W → Kernel W
  release_all [] k = k
  release_all (f ∷ got) k = release_all got (release_fcb f k)

  -- The last loop, over the identifiers and blocks in order.
  unfoldable pub install : List ℕ → List ℕ → Kernel W → Kernel W
  install (fid ∷ fids) (f ∷ fcbs) k =
      install fids fcbs (fcb_incref f (record k { fidt = set k.fidt fid (some f) }))
  install _ _ k = k

  -- The identifiers and blocks reserved, or `none` where the call returns 0.
  unfoldable pub fcb_reserve : ℕ → Kernel W → Option (List ℕ × List ℕ) × Kernel W
  unfolding find_fids acquire_all release_all install
  fcb_reserve num k = elim (find_fids num 0 k.fidt) [
    | none ↦ (none, k)
    | some fids ↦
        let (all_found, got, k') = acquire_all num [] k in
        if all_found
        then (some (fids, reverse got), install fids (reverse got) k')
        else (none, release_all got k')
  ]

  pub fcb_unreserve : List ℕ → List ℕ → Kernel W → Kernel W
  fcb_unreserve (fid ∷ fids) (f ∷ fcbs) k =
      fcb_unreserve fids fcbs (release_fcb f (record k { fidt = set k.fidt fid none }))
  fcb_unreserve _ _ k = k

  unfoldable pub get_fcb : ℤ → Kernel W → Option ℕ
  get_fcb fid k = if in_range max_fileid fid then fid_entry k.fidt (to_nat fid) else none

module _ {W : Type 0} (d : Driver W) where
  open d use {close_op, read_op, write_op}

  -- The decrement of `unsigned int` goes round at 0.
  pub fcb_decref : ℕ → Kernel W → ℤ × Kernel W
  fcb_decref f k =
      let k' = set_refcount f (((k.ft f).refcount + (2 ^ 32 - 1)) % 2 ^ 32) k in
      if (k'.ft f).refcount == 0
      then (let (retval, w) = close_op (k'.ft f).streamfunc (k'.ft f).streamobj k'.objects in
          (retval, release_fcb f (record k' { objects = w })))
      else (pos 0, k')

  pub sys_read : ℤ → (ℕ → ℕ) → ℕ → Kernel W → ℤ × (ℕ → ℕ) × Kernel W
  unfolding get_fcb fcb_decref
  sys_read fd buf size k = elim (get_fcb fd k) [
    | none ↦ (minus_one, buf, k)
    | some f ↦
        let k1 = fcb_incref f k in
        elim (read_op (k.ft f).streamfunc) [
          | none ↦ (minus_one, buf, (fcb_decref f k1).1)
          | some devread ↦
              let (retcode, out, k2) = devread (k.ft f).streamobj buf size k1 in
              (retcode, out, (fcb_decref f k2).1)
        ]
  ]

  pub sys_write : ℤ → (ℕ → ℕ) → ℕ → Kernel W → ℤ × Kernel W
  unfolding get_fcb fcb_decref
  sys_write fd buf size k = elim (get_fcb fd k) [
    | none ↦ (minus_one, k)
    | some f ↦
        let k1 = fcb_incref f k in
        elim (write_op (k.ft f).streamfunc) [
          | none ↦ (minus_one, (fcb_decref f k1).1)
          | some devwrite ↦
              let (retcode, k2) = devwrite (k.ft f).streamobj buf size k1 in
              (retcode, (fcb_decref f k2).1)
        ]
  ]

  pub sys_close : ℤ → Kernel W → ℤ × Kernel W
  unfolding get_fcb fcb_decref
  sys_close fd k =
      let retcode = if in_range max_fileid fd then pos 0 else minus_one in
      elim (get_fcb fd k) [
        | none ↦ (retcode, k)
        | some f ↦ fcb_decref f (record k { fidt = set k.fidt (to_nat fd) none })
      ]

  -- `if(new) FCB_decref(new)`
  abbrev pub drop_new : Option ℕ → Kernel W → Kernel W
  drop_new none k = k
  drop_new (some f) k = (fcb_decref f k).1

  abbrev pub same_fcb : ℕ → Option ℕ → Bool
  same_fcb f none = false
  same_fcb f (some g) = f == g

  pub sys_dup2 : ℤ → ℤ → Kernel W → ℤ × Kernel W
  unfolding get_fcb fcb_decref
  sys_dup2 oldfd newfd k =
      if not (in_range max_fileid oldfd && in_range max_fileid newfd)
      then (minus_one, k)
      else elim (get_fcb oldfd k) [
        | none ↦ (minus_one, k)
        | some old ↦
            if same_fcb old (get_fcb newfd k)
            then (pos 0, k)
            else let k1 = fcb_incref old (drop_new (get_fcb newfd k) k) in
              (pos 0, record k1 { fidt = set k1.fidt (to_nat newfd) (some old) })
      ]

  -- The two arrays have one element: the file identifier is that of the first, or NOFILE.
  abbrev pub connect : Option (Option ℕ × FileOps) → List ℕ → List ℕ → Kernel W → ℤ × Kernel W
  connect none fids fcbs k = (minus_one, fcb_unreserve fids fcbs k)
  connect (some (obj, ops)) (fid ∷ _) (f ∷ _) k = (
    pos fid,
    record k { ft = update k.ft f (record (k.ft f) { streamobj = obj; streamfunc = ops }) },
  )
  connect (some (obj, ops)) _ _ k = (minus_one, k)

  pub open_stream : (ports : ℕ) → DeviceType → ℕ → Kernel W → ℤ × Kernel W
  unfolding fcb_reserve fcb_unreserve device_open
  open_stream ports major minor k =
      let (reserved, k') = fcb_reserve 1 k in
      elim reserved [
        | none ↦ (minus_one, k')
        | some (fids, fcbs) ↦ connect (device_open ports major minor) fids fcbs k'
      ]

  pub sys_open_null : ℕ → Kernel W → ℤ × Kernel W
  sys_open_null ports = open_stream ports dev_null 0

  pub sys_open_terminal : ℕ → ℕ → Kernel W → ℤ × Kernel W
  sys_open_terminal ports termno = open_stream ports dev_serial termno

pub sys_get_terminal_devices : ℕ → ℕ
unfolding device_no
sys_get_terminal_devices ports = device_no ports dev_serial

unfoldable pub file_indices : (left i : ℕ) → List ℕ
file_indices zero i = []
file_indices (suc left) i = i ∷ file_indices left (i + 1)

-- `initialize_files`, with an empty file table for the current process; `ft` is what the table held.
pub initialize_files : {W : Type 0} → (ℕ → Fcb) → W → Kernel W
unfolding file_indices
initialize_files ft w = record {
  ft = λ f. record (ft f) { refcount = 0 };
  freelist = file_indices max_files 0;
  fidt = replicate max_fileid none;
  objects = w;
}
