-- ===== src/Streams/Table.antt =====
-- `FCB_decref` beside the file table.
use tiny_os_project.Prelude.{
  ℕ, ◌+◌, ◌-◌, ◌%◌, ◌^◌, ◌≡◌, refl, inl, inr, Option, List, ◌==◌, Bool-cases,
}
use tiny_os_project.Streams.{Kernel, Driver, fcb_decref, set_refcount}

module _ {W : Type 0} (d : Driver W) (f : ℕ) (k : Kernel W) where
  pub decref_fidt : (fcb_decref d f k).1.fidt ≡ k.fidt
  unfolding fcb_decref
  decref_fidt =
      elim (Bool-cases
        (((set_refcount f (((k.ft f).refcount + (2 ^ 32 - 1)) % 2 ^ 32) k).ft f).refcount == 0)) [
          | inl e ↦ rw e refl
          | inr e ↦ rw e refl
        ]

  -- It takes the write of a table before it or behind it.
  pub decref_table :
      (t : List (Option ℕ))
      → record (fcb_decref d f k).1 { fidt = t } ≡ (fcb_decref d f (record k { fidt = t })).1
  unfolding fcb_decref
  decref_table t =
      elim (Bool-cases
        (((set_refcount f (((k.ft f).refcount + (2 ^ 32 - 1)) % 2 ^ 32) k).ft f).refcount == 0)) [
          | inl e ↦ rw e refl
          | inr e ↦ rw e refl
        ]
