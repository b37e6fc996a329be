-- ===== src/Rlist/Walk.antt =====
-- `rlist_len` and `rlist_find`: walks along a ring.
use tiny_os_project.Prelude.{
  ℕ, zero, suc, ◌+◌, ◌%◌, ◌^◌, ◌<◌, ◌≡◌, List, [], ◌∷◌, arith, count, some, length, ◌==◌,
  if◌then◌else◌,
}
use tiny_os_project.Rlist.{Ptr, Heap, len_loop, rlist_len, find_loop, rlist_find}
use tiny_os_project.Rlist.Links.{Links, IsRing}

module _ (h : Heap) (list : Ptr) where
  len_loop-length :
      (fuel n : ℕ) (a : Ptr) (xs : List Ptr)
      → Links h a xs list
      → count list xs ≡ 0
      → length xs < fuel
      → n + length xs < 2 ^ 32
      → len_loop fuel list (h.next a) n h ≡ some (n + length xs)
  unfolding len_loop
  len_loop-length zero n a xs k out f w = absurd (omega arith)
  len_loop-length (suc fuel) n a [] k out f w = ground arith
  len_loop-length (suc fuel) n a (x ∷ xs) k out f w =
      ground (arith, small, len_loop-length fuel (n + 1) x xs k.2)
    where
      small : (n + 1) % 2 ^ 32 ≡ n + 1
      small = omega arith

  -- The first node of the list whose key is `key`, or `fail`.
  abbrev pub find : ℕ → Ptr → List Ptr → Ptr
  find key fail [] = fail
  find key fail (x ∷ xs) = if h.obj x == key then x else find key fail xs

  find_loop-find :
      (fuel key fail a : ℕ) (xs : List Ptr)
      → Links h a xs list
      → count list xs ≡ 0
      → length xs < fuel
      → find_loop fuel list (h.next a) key fail h ≡ some (find key fail xs)
  unfolding find_loop
  find_loop-find zero key fail a xs k out f = absurd (omega arith)
  find_loop-find (suc fuel) key fail a [] k out f = ground arith
  find_loop-find (suc fuel) key fail a (x ∷ xs) k out f =
      ground (arith, find_loop-find fuel key fail x xs k.2)

module _ {h : Heap} {list : Ptr} {xs : List Ptr} (fuel : ℕ) (enough : length xs < fuel) where
  -- For a list of fewer than 2^32 nodes, and more fuel than nodes, `rlist_len` ends with their
  -- number.
  pub rlist_len-length :
      IsRing h list xs → length xs < 2 ^ 32 → rlist_len fuel list h ≡ some (length xs)
  unfolding rlist_len
  rlist_len-length r small =
      ground (arith, len_loop-length h list fuel 0 list xs r.links, r.distinct list)

  -- For a list, and more fuel than nodes, `rlist_find` ends with the first node that has the key,
  -- or with `fail` where none has it.
  pub rlist_find-find :
      (key : ℕ) (fail : Ptr)
      → IsRing h list xs
      → rlist_find fuel list key fail h ≡ some (find h list key fail xs)
  unfolding rlist_find
  rlist_find-find key fail r =
      ground (arith, find_loop-find h list fuel key fail list xs r.links, r.distinct list)
