-- ===== src/Rlist/Insert.antt =====
-- `rlist_push_front` and `rlist_push_back` on the lists of addresses that the rings hold.
use tiny_os_project.Prelude.{
  ◌+◌, ◌≤◌, ◌≡◌, refl, ◌⊎◌, inl, inr, List, [], ◌∷◌, ◌++◌, arith, count, Distinct, count-append,
  append_assoc,
}
use tiny_os_project.Rlist.{Ptr, Heap, rl_splice, rlist_push_front, rlist_push_back}
use tiny_os_project.Rlist.Links.{
  Links, IsRing, Links-append, Links-split, first, first_mem, next-first,
}
use tiny_os_project.Rlist.Splice.{Links-splice, splice-frame}

-- The last node of a list, if it has one.
pub last-cases : (xs : List Ptr) → (xs ≡ []) ⊎ ((zs : List Ptr) × (z : Ptr) × (xs ≡ zs ++ z ∷ []))
last-cases [] = inl refl
last-cases (x ∷ xs) = elim (last-cases xs) [
  | inl e ↦ inr ([], x, ground arith)
  | inr (zs, z, e) ↦ inr (x ∷ zs, z, ground arith)
]

module _ (h : Heap) (list node : Ptr) (ys : List Ptr) (ring : Links h node ys node) where
  back_empty :
      Links h list [] list
      → Distinct (list ∷ node ∷ ([] ++ ys))
      → Links (rl_splice (h.prev list) node h) list (ys ++ node ∷ []) list
  back_empty k apart =
      let both = Links-splice h list node list node [] ys k ring apart apart in
      rw k.1 (Links-append (rl_splice list node h) list node list ys [] both.0 both.1)

  back_last :
      (zs : List Ptr) (z : Ptr)
      → Links h list (zs ++ z ∷ []) list
      → Distinct (list ∷ node ∷ ((zs ++ z ∷ []) ++ ys))
      → Links (rl_splice (h.prev list) node h) list ((zs ++ z ∷ []) ++ (ys ++ node ∷ [])) list
  back_last zs z k apart =
      let g : Heap = rl_splice z node h in
      let (front, last) = Links-split h list z list zs [] k in
      let (a, b) =
        Links-splice h z node list node [] ys last ring (λ n. ground (arith, fact n))
          (λ n. ground (arith, fact n)) in
      let kept : Links g list zs z =
        splice-frame h z node list z zs front (ground (arith, fact z, fact node)) (
          rw (last.0, next-first h node node ys ring)
            (ground (
              arith,
              fact list,
              fact (first ys node),
              first_mem node ys,
              count-append list zs (z ∷ []),
              count-append (first ys node) zs (z ∷ []),
            ))) in
      rw (last.1, append_assoc)
        (Links-append g list z list zs (ys ++ node ∷ []) kept
          (Links-append g z node list ys [] a b))
    where
      fact : (n : Ptr) → count n (list ∷ node ∷ z ∷ []) + count n zs + count n ys ≤ 1
      fact n = omega (arith, apart n, count-append n (zs ++ z ∷ []) ys, count-append n zs (z ∷ []))

push_back-Links :
    (h : Heap) (list node : Ptr) (xs ys : List Ptr)
    → Links h node ys node
    → Links h list xs list
    → Distinct (list ∷ node ∷ (xs ++ ys))
    → Links (rl_splice (h.prev list) node h) list (xs ++ (ys ++ node ∷ [])) list
push_back-Links h list node xs ys ring = elim (last-cases xs) [
  | inl e ↦ rw e (back_empty h list node ys ring)
  | inr (zs, z, e) ↦ rw e (back_last h list node ys ring zs z)
]

module _ {h : Heap} {list node : Ptr} {xs ys : List Ptr} where
  -- Where the rings of a list and of a node share no node, `rlist_push_front` puts the ring of the
  -- node, the node last, before the nodes of the list.
  pub push_front-IsRing :
      IsRing h list xs
      → IsRing h node ys
      → Distinct (list ∷ node ∷ (xs ++ ys))
      → IsRing (rlist_push_front list node h) list (ys ++ node ∷ xs)
  unfolding rlist_push_front
  push_front-IsRing r s apart =
      let k = Links-splice h list node list node xs ys r.links s.links apart apart in
      record {
        links = Links-append (rl_splice list node h) list node list ys xs k.0 k.1;
        distinct = λ n. omega (arith, apart n, count-append n xs ys, count-append n ys (node ∷ xs));
      }

  -- Where the rings of a list and of a node share no node, `rlist_push_back` puts the ring of the
  -- node, the node last, behind the nodes of the list.
  pub push_back-IsRing :
      IsRing h list xs
      → IsRing h node ys
      → Distinct (list ∷ node ∷ (xs ++ ys))
      → IsRing (rlist_push_back list node h) list (xs ++ (ys ++ node ∷ []))
  unfolding rlist_push_back
  push_back-IsRing r s apart = record {
    links = push_back-Links h list node xs ys s.links r.links apart;
    distinct = λ n. omega (
      arith,
      apart n,
      count-append n xs ys,
      count-append n xs (ys ++ node ∷ []),
      count-append n ys (node ∷ []),
    );
  }
