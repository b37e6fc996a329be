-- ===== src/Streams/Tests.antt =====
-- kernel_streams.c on a process whose identifier 0 refers to the block 0, the only one in use.
use tiny_os_project.Prelude.{
  ℕ, ◌+◌, ◌≡◌, ◌≢◌, ◌≤◌, ◌<◌, ◌⊎◌, ◌==◌, refl, arith, not, ◌&&◌, ap, subst, inl, inr, leb, List,
  ◌∷◌, some, none, Option, count, replicate, length, if◌then◌else◌,
}
use tiny_os_project.Prelude.Int.{ℤ, pos}
use tiny_os_project.Devices.{nulldev_fops}
use tiny_os_project.Streams.{
  Kernel, Driver, file_indices, find_fids, get_fcb, sys_close, sys_dup2, fcb_reserve,
}
use tiny_os_project.Streams.Refs.{Roomy, IsCounted, occurs}
use tiny_os_project.Streams.Initial.{count-file_indices, occurs-replicate}
use tiny_os_project.Streams.Calls.{KeepsCounts, sys_close_last}
use tiny_os_project.Streams.Dup.{sys_dup2-IsCounted, sys_dup2-shares}
use tiny_os_project.Streams.Ids.{free_ids}
use tiny_os_project.Streams.Fresh.{missing}
use tiny_os_project.Streams.Reserve.{fcb_reserve-succeeds, fcb_reserve-rolls_back}

abbrev pub nowhere : ℕ → ℕ
nowhere f = 0

pub room : Roomy nowhere
room f = omega arith

abbrev pub table : List (Option ℕ)
table = some 0 ∷ replicate 15 none

-- The objects are the number of calls of `Close`.
abbrev pub one_open : Kernel ℕ
one_open = record {
  ft = λ f. record {
    refcount = if f == 0 then 1 else 0;
    streamobj = none;
    streamfunc = nulldev_fops;
  };
  freelist = file_indices 65535 1;
  fidt = table;
  objects = 0;
}

abbrev devread : Option ℕ → (ℕ → ℕ) → ℕ → Kernel ℕ → ℤ × (ℕ → ℕ) × Kernel ℕ
devread obj buf n k = (pos n, buf, k)

abbrev devwrite : Option ℕ → (ℕ → ℕ) → ℕ → Kernel ℕ → ℤ × Kernel ℕ
devwrite obj buf n k = (pos n, k)

abbrev pub null_driver : Driver ℕ
null_driver = record {
  close_op = λ ops obj w. (pos 0, w + 1);
  read_op = λ ops. some devread;
  write_op = λ ops. some devwrite;
}

abbrev read_kernel :
    Option ℕ
    → (ℕ → ℕ)
    → ℕ
    → Kernel ℕ
    → Option (Option ℕ → (ℕ → ℕ) → ℕ → Kernel ℕ → ℤ × (ℕ → ℕ) × Kernel ℕ)
    → Kernel ℕ
read_kernel obj buf n k none = k
read_kernel obj buf n k (some op) = (op obj buf n k).2

abbrev write_kernel :
    Option ℕ
    → (ℕ → ℕ)
    → ℕ
    → Kernel ℕ
    → Option (Option ℕ → (ℕ → ℕ) → ℕ → Kernel ℕ → ℤ × Kernel ℕ)
    → Kernel ℕ
write_kernel obj buf n k none = k
write_kernel obj buf n k (some op) = (op obj buf n k).1

null_driver-KeepsCounts : KeepsCounts null_driver
null_driver-KeepsCounts = record {
  reading =
      λ ops op obj buf n k held e v. subst (IsCounted held) (ap (read_kernel obj buf n k) e) v;
  writing =
      λ ops op obj buf n k held e v. subst (IsCounted held) (ap (write_kernel obj buf n k) e) v;
}

listed_from : (f left i : ℕ) → i ≤ f → f < i + left → count f (file_indices left i) ≡ 1
listed_from f left i a b = ground (arith, count-file_indices f left i)

unlisted_below : (f left i : ℕ) → f < i → count f (file_indices left i) ≡ 0
unlisted_below f left i a = ground (arith, count-file_indices f left i)

unlisted_above : (f left i : ℕ) → i + left ≤ f → count f (file_indices left i) ≡ 0
unlisted_above f left i a = ground (arith, count-file_indices f left i)

alone : (f n : ℕ) → 1 ≤ f → occurs f (some 0 ∷ replicate n none) + 0 ≡ 0
alone f n h = ground (arith, occurs-replicate f n)

where_is : (f n : ℕ) → (f ≡ 0) ⊎ ((1 ≤ f) × (f < 1 + n)) ⊎ (1 ≤ f) × (1 + n ≤ f)
where_is f n = ground arith

pub one_open-IsCounted : IsCounted nowhere one_open
one_open-IsCounted = record {
  table = refl;
  each = λ f. elim (where_is f 65535) [
    | inl e ↦ rw e (
        inr (
          inr (inl (unlisted_below 0 65535 1 (omega arith), refl, omega arith, omega arith, refl))))
    | inr (inl (a, b)) ↦ inl (listed_from f 65535 1 a b, refl, alone f 15 a, b)
    | inr (inr (a, b)) ↦ inr (inr (inr (unlisted_above f 65535 1 b, refl, alone f 15 a, b)))
  ];
}

sys_dup2-IsCounted_example : IsCounted nowhere (sys_dup2 null_driver (pos 0) (pos 3) one_open).1
sys_dup2-IsCounted_example = sys_dup2-IsCounted null_driver room one_open-IsCounted (pos 0) (pos 3)

sys_dup2-shares_example :
    let (r, k') = sys_dup2 null_driver (pos 0) (pos 3) one_open in
    (r ≡ pos 0)
    × (get_fcb (pos 3) k' ≡ some 0)
    × (get_fcb (pos 0) k' ≡ some 0)
    × ((fd : ℤ) → fd ≢ pos 3 → get_fcb fd k' ≡ get_fcb fd one_open)
unfolding get_fcb
sys_dup2-shares_example = sys_dup2-shares null_driver (pos 0) (pos 3) one_open 0 refl refl refl

sys_close_last_example :
    let (r, k') = sys_close null_driver (pos 0) one_open in
    (r ≡ pos 0) × (k'.objects ≡ 1) × (get_fcb (pos 0) k' ≡ none)
unfolding get_fcb
sys_close_last_example = sys_close_last null_driver room one_open-IsCounted (pos 0) 0 refl

fcb_reserve-succeeds_example :
    missing (fcb_reserve 2 one_open).0
    ≡ not (leb 2 (length (free_ids 0 one_open.fidt)) && leb 2 (length one_open.freelist))
fcb_reserve-succeeds_example = fcb_reserve-succeeds 2 one_open-IsCounted

too_many : (fcb_reserve 16 one_open).0 ≡ none
unfolding fcb_reserve find_fids
too_many = refl

fcb_reserve-rolls_back_example :
    let k' = (fcb_reserve 16 one_open).1 in
    (k'.fidt ≡ one_open.fidt)
    × (k'.objects ≡ one_open.objects)
    × ((f : ℕ) → count f k'.freelist ≡ count f one_open.freelist)
    × ((f : ℕ) → count f one_open.freelist ≡ 0 → k'.ft f ≡ one_open.ft f)
fcb_reserve-rolls_back_example = fcb_reserve-rolls_back 16 one_open-IsCounted too_many
