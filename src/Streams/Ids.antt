-- ===== src/Streams/Ids.antt =====
-- The search of `FCB_reserve` for file identifiers.
use tiny_os_project.Prelude.{
  ℕ, zero, suc, ◌+◌, ◌-◌, ◌≡◌, refl, List, [], ◌∷◌, ◌++◌, arith, Option, some, none, length,
  append_assoc, ap, sym, length-append,
}
use tiny_os_project.Streams.{max_fileid, fid_entry, next_fid, prepend, find_fids}

-- The free identifiers of a table whose first entry has the number `f`, in order.
abbrev pub free_ids : ℕ → List (Option ℕ) → List ℕ
free_ids f [] = []
free_ids f (none ∷ t) = f ∷ free_ids (suc f) t
free_ids f (some g ∷ t) = free_ids (suc f) t

-- The first `num` items of a list, if it has as many.
abbrev pub firsts : ℕ → List ℕ → Option (List ℕ)
firsts zero l = some []
firsts (suc num) [] = none
firsts (suc num) (x ∷ l) = prepend x (firsts num l)

pub get_or_middle :
    (pre u : List (Option ℕ)) (o : Option ℕ) → fid_entry (pre ++ o ∷ u) (length pre) ≡ o
get_or_middle [] u o = refl
get_or_middle (p ∷ pre) u o = get_or_middle pre u o

-- Where the search from the end of `pre` stops in `pre ++ u`.
data Stops (pre u : List (Option ℕ)) : ℕ → Type 0 where
  full : {g : ℕ} → g ≡ length pre + length u → free_ids (length pre) u ≡ [] → Stops pre u g
  found :
      {g : ℕ} (before behind : List (Option ℕ))
      → pre ++ u ≡ before ++ behind
      → length before ≡ suc g
      → free_ids (length pre) u ≡ g ∷ free_ids (suc g) behind
      → Stops pre u g

length-snoc : (pre : List (Option ℕ)) (o : Option ℕ) → length (pre ++ o ∷ []) ≡ suc (length pre)
length-snoc pre o = omega (arith, length-append pre (o ∷ []))

widen :
    (pre u : List (Option ℕ)) (h g : ℕ) → Stops (pre ++ some h ∷ []) u g → Stops pre (some h ∷ u) g
widen pre u h g (full e none_free) =
    full (omega (arith, e, length-snoc pre (some h))) (rw (length-snoc pre (some h)) at none_free)
widen pre u h g (found before behind e l ids) =
    found before behind (rw append_assoc at e) l (rw (length-snoc pre (some h)) at ids)

next_fid-Stops :
    (u pre : List (Option ℕ)) (f : ℕ)
    → f ≡ length pre
    → Stops pre u (next_fid (length u) f (pre ++ u))
unfolding next_fid
next_fid-Stops [] pre f at_end = full (omega arith) refl
next_fid-Stops (none ∷ u) pre f at_end =
    rw (at_end, get_or_middle pre u none)
      (found (pre ++ none ∷ []) u (sym (append_assoc pre (none ∷ []) u)) (length-snoc pre none)
        refl)
next_fid-Stops (some h ∷ u) pre f at_end =
    rw (at_end, get_or_middle pre u (some h))
      (widen pre u h _ (
        rw (append_assoc pre (some h ∷ []) u) at (
          next_fid-Stops u (pre ++ some h ∷ []) (length pre + 1)
            (omega (arith, length-snoc pre (some h))))))

-- The search finds the lowest free identifiers, or fails if there are fewer than wanted.
find_fids-from :
    (num f : ℕ) (pre u : List (Option ℕ))
    → f ≡ length pre
    → length pre + length u ≡ max_fileid
    → find_fids num f (pre ++ u) ≡ firsts num (free_ids (length pre) u)
unfolding find_fids
find_fids-from zero f pre u at_end size = refl
find_fids-from (suc num) f pre u at_end size =
    go _ (next_fid-Stops u pre f at_end) refl (find_fids-from num)
  where
    left : max_fileid - f ≡ length u
    left = omega arith

    Later : Type 0
    Later =
        (f : ℕ) (pre u : List (Option ℕ))
        → f ≡ length pre
        → length pre + length u ≡ max_fileid
        → find_fids num f (pre ++ u) ≡ firsts num (free_ids (length pre) u)

    go :
        (g : ℕ)
        → Stops pre u g
        → next_fid (length u) f (pre ++ u) ≡ g
        → Later
        → find_fids (suc num) f (pre ++ u) ≡ firsts (suc num) (free_ids (length pre) u)
    go g (full e none_free) at_g ih = rw (left, at_g, none_free) (ground arith)
    go g (found before behind e l ids) at_g ih =
        let whole : length before + length behind ≡ max_fileid =
          omega (arith, ap length e, length-append before behind, length-append pre u) in
        let later : find_fids num (g + 1) (pre ++ u) ≡ firsts num (free_ids (suc g) behind) =
          rw (e, ← l) (ih (g + 1) before behind (omega arith) whole) in
        rw (left, at_g, ids, later) (ground arith)

-- For a table of 16 entries, the first loop of `FCB_reserve` finds the `num` lowest free
-- identifiers, and gives up exactly when there are fewer.
pub find_fids-firsts :
    (num : ℕ) (t : List (Option ℕ))
    → length t ≡ max_fileid
    → find_fids num 0 t ≡ firsts num (free_ids 0 t)
find_fids-firsts num t size = find_fids-from num 0 [] t refl (omega arith)
