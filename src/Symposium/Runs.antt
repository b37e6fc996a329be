-- ===== src/Symposium/Runs.antt =====
-- The runs of a symposium.
use tiny_os_project.Prelude.{
  ℕ, zero, suc, ◌+◌, ◌*◌, ◌≤◌, ◌<◌, ◌≡◌, ◌⊎◌, ◌≢◌, refl, ap, ◌∙◌, inl, inr, arith, true, false,
  if◌then◌else◌, ◌==◌, Bool, ℕ_discrete, update, update_self, update_other,
}
use tiny_os_project.Symposium.{
  Phil, hungry, eating, Place, gone, Table, left_of, right_of, Move, moves, stays, philosopher,
  symposium_table_init, Reached, start, next,
}
use tiny_os_project.Symposium.Ring.{left_of-lt, right_of-lt}
use tiny_os_project.Symposium.Monitor.{
  At, outside, at_thought, unserved, called, at_meal, away, IsSeated,
}
use tiny_os_project.Symposium.Sections.{
  rank, eaten, meal, Goes, went, slept, left_table, philosopher-Goes,
}

init-IsSeated : (n bites : ℕ) → IsSeated n bites symposium_table_init
unfolding symposium_table_init
init-IsSeated n bites = record {
  safe = λ i lt e f. absurd (cc (e));
  fed = λ k lt e. absurd (cc (e));
  places = λ k. outside;
}

Reached-IsSeated : (n bites m : ℕ) (t : Table) → Reached n bites m t → IsSeated n bites t
Reached-IsSeated n bites _ _ start = init-IsSeated n bites
Reached-IsSeated n bites _ t' (next {m} {t} i lt before e) =
    go (philosopher n bites i t) e
      (philosopher-Goes n bites i t (Reached-IsSeated n bites m t before) lt)
  where
    go : (o : Move) → o ≡ moves t' → Goes n bites i t o → IsSeated n bites t'
    go _ e (went t2 p v stage further fed) = let same : t2 ≡ t' = cc (e) in rw⁻¹ same v
    go _ e (slept h) = absurd (cc (e))
    go _ e (left_table h) = absurd (cc (e))

-- In every state that sections of any philosophers in any order lead to: no philosopher eats beside
-- another who eats, every hungry one has a neighbour who eats, and each one's state agrees with its
-- place in the program; and the next section of any philosopher leads to a later place, or finds it
-- asleep and hungry, or gone, and never fails the assertion.
pub Reached-Goes :
    (n bites m i : ℕ) (t : Table)
    → Reached n bites m t
    → i < n
    → IsSeated n bites t × Goes n bites i t (philosopher n bites i t)
Reached-Goes n bites m i t r lt =
    let v = Reached-IsSeated n bites m t r in (v, philosopher-Goes n bites i t v lt)

stays-at :
    (n bites i : ℕ) (t : Table)
    → IsSeated n bites t
    → i < n
    → philosopher n bites i t ≡ stays
    → (t.state i ≡ hungry) ⊎ (t.stage i ≡ gone)
stays-at n bites i t v lt e = go (philosopher n bites i t) e (philosopher-Goes n bites i t v lt)
  where
    go : (o : Move) → o ≡ stays → Goes n bites i t o → (t.state i ≡ hungry) ⊎ (t.stage i ≡ gone)
    go _ e (went t2 p v stage further fed) = absurd (cc (e))
    go _ e (slept h) = inl h
    go _ e (left_table h) = inr h

-- Who eats is not away.
eats_here : (bites : ℕ) (p : Place) (s : Phil) (b : Bool) → At bites p s b → s ≡ eating → p ≢ gone
eats_here bites _ _ _ outside e f = absurd (cc (e))
eats_here bites _ _ _ (at_thought h) e f = absurd (cc (e))
eats_here bites _ _ _ (unserved h) e f = absurd (cc (e))
eats_here bites _ _ _ (called h) e f = absurd (cc (f))
eats_here bites _ _ _ (at_meal h) e f = absurd (cc (f))
eats_here bites _ _ _ away e f = absurd (cc (e))

all-gone :
    (n bites m : ℕ) (t : Table)
    → Reached n bites m t
    → ((i : ℕ) → i < n → philosopher n bites i t ≡ stays)
    → (i : ℕ) → i < n
    → t.stage i ≡ gone
all-gone n bites m t r stuck i lt = elim (stays-at n bites i t v lt (stuck i lt)) [
  | inr e ↦ e
  | inl h ↦ elim (v.fed i lt h) [
    | inl l ↦ absurd (idle (left_of i n) (left_of-lt i n lt) l)
    | inr q ↦ absurd (idle (right_of i n) (right_of-lt i n lt) q)
  ]
]
  where
    v : IsSeated n bites t
    v = Reached-IsSeated n bites m t r

    idle : (k : ℕ) → k < n → t.state k ≡ eating → ⊥
    idle k lt e = elim (stays-at n bites k t v lt (stuck k lt)) [
      | inl h ↦ absurd (cc (e, h))
      | inr g ↦ absurd (eats_here bites (t.stage k) (t.state k) (t.asleep k) (v.places k) e g)
    ]

-- How many of the sections of a run were the end of a meal of `k`.
pub meals : {n bites m : ℕ} {t : Table} → Reached n bites m t → ℕ → ℕ
meals start k = 0
meals (next {t = t} i lt before e) k = meals before k + (if k == i then meal (t.stage i) else 0)

meals-eaten :
    (n bites m : ℕ) (t : Table) (r : Reached n bites m t) (k : ℕ)
    → meals r k ≡ eaten bites (t.stage k)
unfolding meals symposium_table_init
meals-eaten n bites _ _ start k = refl
meals-eaten n bites _ t' (next {m} {t} i lt before e) k =
    go (philosopher n bites i t) e
      (philosopher-Goes n bites i t (Reached-IsSeated n bites m t before) lt)
      (meals-eaten n bites m t before k)
  where
    go :
        (o : Move)
        → o ≡ moves t'
        → Goes n bites i t o
        → meals before k ≡ eaten bites (t.stage k)
        → meals before k + (if k == i then meal (t.stage i) else 0) ≡ eaten bites (t'.stage k)
    go _ e (went t2 p v stage further fed) so_far =
        let same : t2 ≡ t' = cc (e) in
        rw⁻¹ same (elim (ℕ_discrete k i) [
          | yes here ↦
              let moved : t2.stage k ≡ p =
                ap (λ f. f k) stage ∙ ap (update t.stage i p) here ∙ update_self t.stage i p in
              let own : (k == i) ≡ true = ground (arith, here) in
              let count = so_far ∙ ap (λ x. eaten bites (t.stage x)) here in
              rw (own, moved) (omega (arith, count, fed))
          | no other ↦
              let still : t2.stage k ≡ t.stage k =
                ap (λ f. f k) stage ∙ update_other t.stage i k p other in
              let foreign : (k == i) ≡ false = ground (arith, other) in
              rw (foreign, still) (omega (arith, so_far))
        ])
    go _ e (slept h) so_far = absurd (cc (e))
    go _ e (left_table h) so_far = absurd (cc (e))

-- The philosophers do not deadlock: where no section of any of them can run, all have left, each
-- after exactly as many meals as it has bites.
pub stuck-gone :
    (n bites m : ℕ) (t : Table) (r : Reached n bites m t)
    → ((i : ℕ) → i < n → philosopher n bites i t ≡ stays)
    → (i : ℕ) → i < n
    → (t.stage i ≡ gone) × (meals r i ≡ bites)
stuck-gone n bites m t r stuck i lt =
    let left_all = all-gone n bites m t r stuck i lt in
    (left_all, meals-eaten n bites m t r i ∙ ap (eaten bites) left_all)

-- How far all have come.
abbrev total : (n bites : ℕ) → (ℕ → Place) → ℕ
total zero bites f = 0
total (suc n) bites f = total n bites f + rank bites (f n)

total_other :
    (n bites i : ℕ) (f : ℕ → Place) (p : Place)
    → n ≤ i
    → total n bites (update f i p) ≡ total n bites f
total_other zero bites i f p h = refl
total_other (suc n) bites i f p h =
    rw
      (
        update_other f i n p (λ e. absurd (omega (arith, e, h))),
        total_other n bites i f p (omega arith),
      )
      refl

total-update :
    (n bites i : ℕ) (f : ℕ → Place) (p : Place)
    → i < n
    → rank bites (f i) < rank bites p
    → total n bites f < total n bites (update f i p)
total-update zero bites i f p lt h = absurd (omega arith)
total-update (suc n) bites i f p lt h = elim (ℕ_discrete n i) [
  | yes e ↦ rw (e, update_self f i p, total_other i bites i f p (omega arith)) (omega (arith, h))
  | no e ↦ rw (update_other f i n p e) (omega (arith, total-update n bites i f p (omega arith) h))
]

rank-upper :
    (bites : ℕ) (p : Place) (s : Phil) (b : Bool) → At bites p s b → rank bites p ≤ 2 + 3 * bites
rank-upper bites _ _ _ outside = omega arith
rank-upper bites _ _ _ (at_thought h) = omega (arith, h)
rank-upper bites _ _ _ (unserved h) = omega (arith, h)
rank-upper bites _ _ _ (called h) = omega (arith, h)
rank-upper bites _ _ _ (at_meal h) = omega (arith, h)
rank-upper bites _ _ _ away = omega arith

total-upper :
    (n bites : ℕ) (t : Table)
    → IsSeated n bites t
    → (m : ℕ) → total m bites t.stage ≤ m * (2 + 3 * bites)
total-upper n bites t v zero = omega arith
total-upper n bites t v (suc m) = grind (
  arith,
  total-upper n bites t v m,
  rank-upper bites (t.stage m) (t.state m) (t.asleep m) (v.places m),
)

Reached-total : (n bites m : ℕ) (t : Table) → Reached n bites m t → m ≤ total n bites t.stage
Reached-total n bites _ _ start = omega arith
Reached-total n bites _ t' (next {m} {t} i lt before e) =
    go (philosopher n bites i t) e
      (philosopher-Goes n bites i t (Reached-IsSeated n bites m t before) lt)
      (Reached-total n bites m t before)
  where
    go :
        (o : Move)
        → o ≡ moves t'
        → Goes n bites i t o
        → m ≤ total n bites t.stage
        → suc m ≤ total n bites t'.stage
    go _ e (went t2 p v stage further fed) so_far =
        let same : t2 ≡ t' = cc (e) in
        rw⁻¹ same (rw stage (omega (arith, so_far, total-update n bites i t.stage p lt further)))
    go _ e (slept h) so_far = absurd (cc (e))
    go _ e (left_table h) so_far = absurd (cc (e))

-- Every run of `N` philosophers with so many bites each has at most `N * (2 + 3 * bites)` sections,
-- whatever their order.
pub Reached-upper : (n bites m : ℕ) (t : Table) → Reached n bites m t → m ≤ n * (2 + 3 * bites)
Reached-upper n bites m t r =
    omega
      (arith, Reached-total n bites m t r, total-upper n bites t (Reached-IsSeated n bites m t r) n)
