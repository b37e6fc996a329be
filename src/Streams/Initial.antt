-- ===== src/Streams/Initial.antt =====
-- The file table as `initialize_files` leaves it.
use tiny_os_project.Prelude.{
  ℕ, zero, suc, ◌+◌, ◌<◌, ◌≡◌, refl, arith, none, Option, ◌&&◌, count, replicate, length-replicate,
  leb, ltb, if◌then◌else◌, inl, inr, ◌⊎◌, ◌≤◌,
}
use tiny_os_project.Streams.{Fcb, initialize_files, file_indices, max_files, max_fileid}
use tiny_os_project.Streams.Refs.{occurs, IsCounted}

pub count-file_indices :
    (f left i : ℕ) → count f (file_indices left i) ≡ (if leb i f && ltb f (i + left) then 1 else 0)
unfolding file_indices
count-file_indices f zero i = ground arith
count-file_indices f (suc left) i = ground (arith, count-file_indices f left (i + 1))

pub occurs-replicate : (f n : ℕ) → occurs f (replicate n none) ≡ 0
occurs-replicate f zero = refl
occurs-replicate f (suc n) = omega (arith, occurs-replicate f n)

occurs-empty : (f n : ℕ) → occurs f (replicate n none) + 0 ≡ 0
occurs-empty f n = omega (arith, occurs-replicate f n)

listed : (f left : ℕ) → f < left → count f (file_indices left 0) ≡ 1
listed f left h = ground (arith, count-file_indices f left 0)

unlisted : (f left : ℕ) → left ≤ f → count f (file_indices left 0) ≡ 0
unlisted f left h = ground (arith, count-file_indices f left 0)

beyond : (f left : ℕ) → (f < left) ⊎ (left ≤ f)
beyond f left = ground arith

-- `initialize_files` makes every one of the 65536 blocks free, once each, with every counter right
-- where no reference exists.
pub initialize_files-IsCounted :
    {W : Type 0} (ft : ℕ → Fcb) (w : W) → IsCounted (λ f. 0) (initialize_files ft w)
unfolding initialize_files
initialize_files-IsCounted {W} ft w = record {
  table = length-replicate {A = Option ℕ} max_fileid none;
  each = λ f. elim (beyond f max_files) [
    | inl h ↦ inl (listed f max_files h, refl, occurs-empty f max_fileid, h)
    | inr h ↦ inr (inr (inr (unlisted f max_files h, refl, occurs-empty f max_fileid, h)))
  ];
}
