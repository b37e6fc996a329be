-- ===== src/Rlist/Remove.antt =====
-- `rlist_remove`, `rlist_pop_front` and `rlist_append` on the lists of addresses that the rings
-- hold.
use tiny_os_project.Prelude.{
  ◌↔◌, ◌+◌, ◌≤◌, ◌≡◌, refl, inl, inr, List, [], ◌∷◌, ◌++◌, arith, count, Distinct, true,
  count-append, append_assoc, append-nil,
}
use tiny_os_project.Rlist.{
  Ptr, Heap, rl_splice, rlist_remove, rlist_pop_front, rlist_append, rlist_push_back,
  is_rlist_empty,
}
use tiny_os_project.Rlist.Links.{
  Links, IsRing, Links-append, Links-split, first, first_mem, next-first,
}
use tiny_os_project.Rlist.Splice.{Links-splice, splice-frame}
use tiny_os_project.Rlist.Insert.{last-cases, push_back-IsRing}

-- A node behind the sentinel, and a node behind another node.
module _ (h : Heap) (l n : Ptr) (ys : List Ptr) where
  abbrev Removed : List Ptr → Type 0
  Removed xs =
      Links (rl_splice n (h.prev n) h) l (xs ++ ys) l × Links (rl_splice n (h.prev n) h) n [] n

  remove_first : Links h l (n ∷ ys) l → Distinct (l ∷ n ∷ ys) → Removed []
  remove_first k apart = let (done, alone) = both in rw k.1 (alone, done)
    where
      both : Links (rl_splice n l h) n [] n × Links (rl_splice n l h) l ys l
      both =
          Links-splice h n l l n ys [] k.2 (k.0, k.1)
            (λ i. ground (arith, apart i, count-append i ys []))
            (λ i. ground (arith, apart i, count-append i ys []))

  remove_later :
      (zs : List Ptr) (z : Ptr)
      → Links h l ((zs ++ z ∷ []) ++ n ∷ ys) l
      → Distinct (l ∷ ((zs ++ z ∷ []) ++ n ∷ ys))
      → Removed (zs ++ z ∷ [])
  remove_later zs z k apart =
      let (before, behind) = Links-split h l n l (zs ++ z ∷ []) ys k in
      let (front, last) = Links-split h l z n zs [] before in
      let (alone, joined) =
        Links-splice h n z l n ys [] behind last (λ i. ground (arith, fact i, count-append i ys []))
          (λ i. ground (arith, fact i, count-append i ys [])) in
      let kept : Links (rl_splice n z h) l zs z =
        splice-frame h n z l z zs front (ground (arith, fact n, fact z)) (
          rw (last.0, next-first h n l ys behind)
            (ground (
              arith,
              fact n,
              fact (first ys l),
              first_mem l ys,
              count-append n zs (z ∷ []),
              count-append (first ys l) zs (z ∷ []),
            ))) in
      rw (last.1, append_assoc) (Links-append (rl_splice n z h) l z l zs ys kept joined, alone)
    where
      fact : (i : Ptr) → count i (l ∷ n ∷ z ∷ []) + count i zs + count i ys ≤ 1
      fact i =
          omega (arith, apart i, count-append i (zs ++ z ∷ []) (n ∷ ys), count-append i zs (z ∷ []))

remove-Removed :
    (h : Heap) (l n : Ptr) (ys xs : List Ptr)
    → Links h l (xs ++ n ∷ ys) l
    → Distinct (l ∷ (xs ++ n ∷ ys))
    → Removed h l n ys xs
remove-Removed h l n ys xs = elim (last-cases xs) [
  | inl e ↦ rw e (remove_first h l n ys)
  | inr (zs, z, e) ↦ rw e (remove_later h l n ys zs z)
]

module _ {h : Heap} {l : Ptr} where
  -- For a node of a list, wherever it stands, `rlist_remove` leaves the other nodes in order, and
  -- the node as a ring of its own.
  pub remove-IsRing :
      (n : Ptr) (xs ys : List Ptr)
      → IsRing h l (xs ++ n ∷ ys)
      → IsRing (rlist_remove n h) l (xs ++ ys) × IsRing (rlist_remove n h) n []
  unfolding rlist_remove
  remove-IsRing n xs ys r =
      let done = remove-Removed h l n ys xs r.links r.distinct in
      (
        record {
          links = done.0;
          distinct =
              λ i. omega (arith, r.distinct i, count-append i xs (n ∷ ys), count-append i xs ys);
        },
        record { links = done.1; distinct = λ i. ground arith },
      )

  -- For a list that is not empty, `rlist_pop_front` returns its first node, leaves the others in
  -- order, and the node as a ring of its own.
  pub pop_front-IsRing :
      (x : Ptr) (xs : List Ptr)
      → IsRing h l (x ∷ xs)
      → ((rlist_pop_front l h).0 ≡ x)
        × IsRing (rlist_pop_front l h).1 l xs
        × IsRing (rlist_pop_front l h).1 x []
  unfolding rlist_pop_front
  pop_front-IsRing x xs r =
      let (k0, k1, k) = r.links in
      let both : Links (rl_splice l x h) l xs l × Links (rl_splice l x h) x [] x =
        Links-splice h l x x l [] xs (k0, k1) k (λ i. ground (arith, r.distinct i))
          (λ i. ground (arith, r.distinct i)) in
      rw k0 (
        refl,
        record { links = both.0; distinct = λ i. ground (arith, r.distinct i) },
        record { links = both.1; distinct = λ i. ground arith },
      )

  -- A list is empty exactly when the test says so.
  pub is_rlist_empty_iff : (xs : List Ptr) → IsRing h l xs → (is_rlist_empty l h ≡ true) ↔ (xs ≡ [])
  unfolding is_rlist_empty
  is_rlist_empty_iff [] r = ground arith
  is_rlist_empty_iff (x ∷ xs) r = ground (arith, r.distinct l)

module _ {h : Heap} {l : Ptr} where
  -- For two lists that share no node, `rlist_append` moves the nodes of the source behind those of
  -- the destination, in order, and leaves the source empty.
  pub append-IsRing :
      (lsrc : Ptr) (xs ys : List Ptr)
      → IsRing h l xs
      → IsRing h lsrc ys
      → Distinct (l ∷ lsrc ∷ (xs ++ ys))
      → IsRing (rlist_append l lsrc h) l (xs ++ ys) × IsRing (rlist_append l lsrc h) lsrc []
  unfolding rlist_append
  append-IsRing lsrc xs ys r s apart =
      let pushed : IsRing (rlist_push_back l lsrc h) l ((xs ++ ys) ++ lsrc ∷ []) =
        rw append_assoc (push_back-IsRing r s apart) in
      let (whole, alone) = remove-IsRing lsrc (xs ++ ys) [] pushed in
      (rw append-nil at whole, alone)
