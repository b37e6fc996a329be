-- ===== src/Streams/Fresh.antt =====
-- Lists of free identifiers, as `FCB_reserve` collects them.
use mathlib.Core.List.{reverse-cons}
use tiny_os_project.Prelude.{
  ℕ, zero, suc, ◌+◌, ◌≤◌, ◌<◌, ◌≡◌, ◌≢◌, refl, inl, inr, List, [], ◌∷◌, ◌++◌, arith, Option, some,
  none, length, set, Bool, true, false, not, append_assoc, ap, ◌∙◌, length-append, leb, count,
  count-append, reverse, get_or-set_ne, Option-cases,
}
use tiny_os_project.Streams.{max_fileid, fid_entry}
use tiny_os_project.Streams.Ids.{free_ids, firsts, get_or_middle}

-- Identifiers from `lo` on, in order, that are free in the table `t`.
abbrev pub Fresh : ℕ → List ℕ → List (Option ℕ) → Type 0
Fresh lo [] t = Unit {0}
Fresh lo (f ∷ fs) t = (lo ≤ f) × (f < max_fileid) × (fid_entry t f ≡ none) × Fresh (suc f) fs t

Fresh-lower :
    (lo lo' : ℕ) (fs : List ℕ) (t : List (Option ℕ)) → lo ≤ lo' → Fresh lo' fs t → Fresh lo fs t
Fresh-lower lo lo' [] t h r = tt
Fresh-lower lo lo' (f ∷ fs) t h (a, b, c, r) = (omega arith, b, c, r)

pub free_ids-Fresh :
    (u pre : List (Option ℕ)) (f : ℕ)
    → f ≡ length pre
    → length pre + length u ≡ max_fileid
    → Fresh f (free_ids f u) (pre ++ u)
free_ids-Fresh [] pre f e size = tt
free_ids-Fresh (none ∷ u) pre f e size = (
  omega arith,
  omega arith,
  rw (e, get_or_middle pre u none),
  rw (append_assoc pre (none ∷ []) u) at (
      free_ids-Fresh u (pre ++ none ∷ []) (suc f) (omega (arith, length-append pre (none ∷ [])))
        (omega (arith, length-append pre (none ∷ [])))),
)
free_ids-Fresh (some g ∷ u) pre f e size =
    Fresh-lower f (suc f) (free_ids (suc f) u) (pre ++ some g ∷ u) (omega arith) (
      rw (append_assoc pre (some g ∷ []) u) at (
        free_ids-Fresh u (pre ++ some g ∷ []) (suc f)
          (omega (arith, length-append pre (some g ∷ [])))
          (omega (arith, length-append pre (some g ∷ [])))))

pub firsts-Fresh :
    (num lo : ℕ) (l fs : List ℕ) (t : List (Option ℕ))
    → firsts num l ≡ some fs
    → Fresh lo l t
    → Fresh lo fs t × (length fs ≡ num)
firsts-Fresh zero lo l [] t e r = (tt, refl)
firsts-Fresh zero lo l (f ∷ fs) t e r = cc
firsts-Fresh (suc num) lo [] fs t e r = cc
firsts-Fresh (suc num) lo (x ∷ l) fs t e (a, b, c, r) = elim (Option-cases (firsts num l)) [
  | inl q ↦ absurd (stuck q)
  | inr (gs, q) ↦
      let (rest, size) = firsts-Fresh num (suc x) l gs t q r in
      let same : fs ≡ x ∷ gs = cc in rw same ((a, b, c, rest), ap suc size)
]
  where
    stuck : firsts num l ≢ none
    stuck q = cc

abbrev pub missing {ℓ} : {A : Type ℓ} → Option A → Bool
missing none = true
missing (some a) = false

pub missing-firsts : (num : ℕ) (l : List ℕ) → missing (firsts num l) ≡ not (leb num (length l))
missing-firsts zero l = ground arith
missing-firsts (suc num) [] = ground arith
missing-firsts (suc num) (x ∷ l) = ground (arith, missing-firsts num l)

pub count-reverse : (n : ℕ) (xs : List ℕ) → count n (reverse xs) ≡ count n xs
count-reverse n [] = refl
count-reverse n (x ∷ xs) =
    rw (reverse-cons x xs) (omega (arith, count-append n (reverse xs) (x ∷ []), count-reverse n xs))

pub length-reverse : (xs : List ℕ) → length (reverse xs) ≡ length xs
length-reverse [] = refl
length-reverse (x ∷ xs) =
    rw (reverse-cons x xs) (omega (arith, length-append (reverse xs) (x ∷ []), length-reverse xs))

pub Fresh-set :
    (lo i : ℕ) (fs : List ℕ) (t : List (Option ℕ)) (o : Option ℕ)
    → i < lo
    → Fresh lo fs t
    → Fresh lo fs (set t i o)
Fresh-set lo i [] t o h r = tt
Fresh-set lo i (f ∷ fs) t o h (a, b, c, r) = (
  a,
  b,
  get_or-set_ne t {i = i} {j = f} o none (omega arith) ∙ c,
  Fresh-set (suc f) i fs t o (omega arith) r,
)
