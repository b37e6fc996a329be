-- ===== src/Rlist/Links.antt =====
-- Rings of nodes as lists of addresses.
use tiny_os_project.Prelude.{◌≤◌, ◌≡◌, List, [], ◌∷◌, ◌++◌, arith, count, Distinct}
use tiny_os_project.Rlist.{Ptr, Heap}

-- From `a` the `next` pointers lead through the nodes `xs` to `b`, and the `prev` pointers back.
abbrev pub Links : Heap → Ptr → List Ptr → Ptr → Type 0
Links h a [] b = (h.next a ≡ b) × (h.prev b ≡ a)
Links h a (x ∷ xs) b = (h.next a ≡ x) × (h.prev x ≡ a) × Links h x xs b

-- The node `l` is the sentinel of a list that holds the nodes `xs` in order.
pub record IsRing (h : Heap) (l : Ptr) (xs : List Ptr) : Type 0 where
  pub links : Links h l xs l
  pub distinct : Distinct (l ∷ xs)

-- The first node after the start of a chain, and those behind it.
abbrev pub first : List Ptr → Ptr → Ptr
first [] b = b
first (x ∷ xs) b = x

abbrev pub others : List Ptr → Ptr → List Ptr
others [] b = []
others (x ∷ xs) b = xs ++ b ∷ []

pub first_mem : (b : Ptr) (xs : List Ptr) → 1 ≤ count (first xs b) (b ∷ xs)
first_mem b [] = ground arith
first_mem b (x ∷ xs) = ground arith

pub next-first : (h : Heap) (a b : Ptr) (xs : List Ptr) → Links h a xs b → h.next a ≡ first xs b
next-first h a b [] k = k.0
next-first h a b (x ∷ xs) k = k.0

pub prev-first : (h : Heap) (a b : Ptr) (xs : List Ptr) → Links h a xs b → h.prev (first xs b) ≡ a
prev-first h a b [] k = k.1
prev-first h a b (x ∷ xs) k = k.1

-- A chain survives any change that spares its own links.
pub frame :
    (h g : Heap) (a b : Ptr) (xs : List Ptr)
    → Links h a xs b
    → ((n : Ptr) → 1 ≤ count n (a ∷ xs) → g.next n ≡ h.next n)
    → ((n : Ptr) → 1 ≤ count n (xs ++ b ∷ []) → g.prev n ≡ h.prev n)
    → Links g a xs b
frame h g a b [] k same_next same_prev = ground (arith, same_next a, same_prev b)
frame h g a b (x ∷ xs) k same_next same_prev = (
  ground (arith, same_next a),
  ground (arith, same_prev x),
  frame h g x b xs k.2 (λ n i. same_next n (ground arith)) (λ n i. same_prev n (ground arith)),
)

-- A chain that is entered from another node.
pub reroute :
    (h g : Heap) (a a' b : Ptr) (xs : List Ptr)
    → Links h a xs b
    → g.next a' ≡ first xs b
    → g.prev (first xs b) ≡ a'
    → ((n : Ptr) → 1 ≤ count n xs → g.next n ≡ h.next n)
    → ((n : Ptr) → 1 ≤ count n (others xs b) → g.prev n ≡ h.prev n)
    → Links g a' xs b
reroute h g a a' b [] k p q same_next same_prev = (p, q)
reroute h g a a' b (x ∷ xs) k p q same_next same_prev =
    (p, q, frame h g x b xs k.2 same_next same_prev)

pub Links-append :
    (h : Heap) (a b c : Ptr) (xs ys : List Ptr)
    → Links h a xs b
    → Links h b ys c
    → Links h a (xs ++ b ∷ ys) c
Links-append h a b c [] ys k m = (k.0, k.1, m)
Links-append h a b c (x ∷ xs) ys k m = (k.0, k.1, Links-append h x b c xs ys k.2 m)

pub Links-split :
    (h : Heap) (a b c : Ptr) (xs ys : List Ptr)
    → Links h a (xs ++ b ∷ ys) c
    → Links h a xs b × Links h b ys c
Links-split h a b c [] ys k = ((k.0, k.1), k.2)
Links-split h a b c (x ∷ xs) ys k =
    let rest = Links-split h x b c xs ys k.2 in ((k.0, k.1, rest.0), rest.1)
