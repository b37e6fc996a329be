-- ===== src/Rlist/Splice.antt =====
-- `rl_splice`, on which all changes of rings rest.
use tiny_os_project.Prelude.{
  ◌+◌, ◌≤◌, ◌≡◌, refl, List, [], ◌∷◌, ◌++◌, arith, count, Distinct, count-append,
}
use tiny_os_project.Rlist.{Ptr, Heap, rl_splice}
use tiny_os_project.Rlist.Links.{Links, first, others, next-first, prev-first, reroute, frame}

count-first : (n b : Ptr) (xs : List Ptr) → count n (first xs b ∷ others xs b) ≡ count n (b ∷ xs)
count-first n b [] = refl
count-first n b (x ∷ xs) = ground (arith, count-append n xs (b ∷ []))

module _ (h : Heap) (a b c d : Ptr) (xs ys : List Ptr) where
  -- The chains from two nodes, to the two nodes in either order, exchange their starts.
  pub Links-splice :
      Links h a xs c
      → Links h b ys d
      → Distinct (a ∷ b ∷ (xs ++ ys))
      → Distinct (c ∷ d ∷ (xs ++ ys))
      → Links (rl_splice a b h) a ys d × Links (rl_splice a b h) b xs c
  unfolding rl_splice
  Links-splice k m starts ends =
      let ka : h.next a ≡ first xs c = next-first h a c xs k in
      let kb : h.next b ≡ first ys d = next-first h b d ys m in
      let pa : h.prev (first xs c) ≡ a = prev-first h a c xs k in
      let pb : h.prev (first ys d) ≡ b = prev-first h b d ys m in
      (
        reroute h (rl_splice a b h) b a d ys m (ground (arith, starts a))
            (ground (arith, firsts (first ys d))) (λ n i. ground (arith, apart n))
            (λ n i. ground (arith, firsts n)),
        reroute h (rl_splice a b h) a b c xs k (ground (arith, starts a))
            (ground (arith, firsts (first ys d))) (λ n i. ground (arith, apart n))
            (λ n i. ground (arith, firsts n)),
      )
    where
      apart : (n : Ptr) → count n (a ∷ b ∷ []) + count n xs + count n ys ≤ 1
      apart n = omega (arith, starts n, count-append n xs ys)

      firsts :
          (n : Ptr) → count n (first xs c ∷ others xs c) + count n (first ys d ∷ others ys d) ≤ 1
      firsts n = omega (arith, ends n, count-append n xs ys, count-first n c xs, count-first n d ys)

module _ (h : Heap) (a b : Ptr) where
  -- A chain that does not pass through the links that change is left alone.
  pub splice-frame :
      (u v : Ptr) (zs : List Ptr)
      → Links h u zs v
      → count a (u ∷ zs) + count b (u ∷ zs) ≡ 0
      → count (h.next a) (zs ++ v ∷ []) + count (h.next b) (zs ++ v ∷ []) ≡ 0
      → Links (rl_splice a b h) u zs v
  unfolding rl_splice
  splice-frame u v zs k starts ends =
      frame h (rl_splice a b h) u v zs k (λ n i. ground arith) (λ n i. ground arith)
