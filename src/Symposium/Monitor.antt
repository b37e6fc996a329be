-- ===== src/Symposium/Monitor.antt =====
-- The monitor of the dining philosophers, and what `trytoeat` keeps of it.
use tiny_os_project.Prelude.{
  ℕ, ◌≤◌, ◌<◌, ◌≡◌, ◌≢◌, ◌⊎◌, refl, sym, inl, inr, ap, ◌∙◌, Bool, true, false, ℕ_discrete, update,
  update_self, update_other, Bool-cases,
}
use tiny_os_project.Symposium.{
  Phil, not_here, thinking, hungry, eating, Place, arrives, gone, thinks, waits, eats, Table,
  left_of, right_of, is_hungry, is_eating, set_state, try_to_eat,
}
use tiny_os_project.Symposium.Ring.{right_of-left_of}

-- No philosopher eats beside another who eats.
abbrev pub Safe : ℕ → Table → Type 0
Safe n t = (i : ℕ) → i < n → t.state i ≡ eating → t.state (left_of i n) ≡ eating → left_of i n ≡ i

-- A hungry philosopher has a neighbour who eats.
abbrev pub FedAt : ℕ → Table → ℕ → Type 0
FedAt n t k =
    t.state k ≡ hungry → (t.state (left_of k n) ≡ eating) ⊎ (t.state (right_of k n) ≡ eating)

-- A place in the program, with the state there and whether the philosopher sleeps.
pub data At (bites : ℕ) : Place → Phil → Bool → Type 0 where
  outside : {b : Bool} → At bites arrives not_here b
  at_thought : {j : ℕ} {b : Bool} → j ≤ bites → At bites (thinks j) thinking b
  unserved : {j : ℕ} → j < bites → At bites (waits j) hungry true
  called : {j : ℕ} → j < bites → At bites (waits j) eating false
  at_meal : {j : ℕ} {b : Bool} → j < bites → At bites (eats j) eating b
  away : {b : Bool} → At bites gone not_here b

pub record IsSeated (n bites : ℕ) (t : Table) : Type 0 where
  pub safe : Safe n t
  pub fed : (k : ℕ) → k < n → FedAt n t k
  pub places : (k : ℕ) → At bites (t.stage k) (t.state k) (t.asleep k)

hungry_lem : (p : Phil) → is_hungry p ≡ true → p ≡ hungry
hungry_lem hungry e = refl
hungry_lem not_here e = absurd (cc)
hungry_lem thinking e = absurd (cc)
hungry_lem eating e = absurd (cc)

pub eating_lem : (p : Phil) → is_eating p ≡ true → p ≡ eating
eating_lem eating e = refl
eating_lem not_here e = absurd (cc)
eating_lem thinking e = absurd (cc)
eating_lem hungry e = absurd (cc)

abbrev pub served : ℕ → Table → Table
served i t = record (set_state i eating t) { asleep = update t.asleep i false }

-- The outcomes of `trytoeat`.
data Tried (n i : ℕ) (t : Table) : Table → Type 0 where
  ate :
      t.state i ≡ hungry
      → t.state (left_of i n) ≢ eating
      → t.state (right_of i n) ≢ eating
      → Tried n i t (served i t)
  kept : FedAt n t i → Tried n i t t

try-Tried : (n i : ℕ) (t : Table) → Tried n i t (try_to_eat n i t)
unfolding try_to_eat
try-Tried n i t = elim (Bool-cases (is_hungry (t.state i))) [
  | inr e ↦ rw e (kept (λ h. absurd (cc (e, h))))
  | inl e ↦ elim (Bool-cases (is_eating (t.state (left_of i n)))) [
    | inl l ↦ rw (e, l) (kept (λ h. inl (eating_lem _ l)))
    | inr l ↦ elim (Bool-cases (is_eating (t.state (right_of i n)))) [
      | inl r ↦ rw (e, l, r) (kept (λ h. inr (eating_lem _ r)))
      | inr r ↦
          rw (e, l, r) (ate (hungry_lem _ e) (λ h. absurd (cc (l, h))) (λ h. absurd (cc (r, h))))
    ]
  ]
]

-- Who eats, eats on.
still_eating : (n i k : ℕ) (t : Table) → t.state k ≡ eating → (try_to_eat n i t).state k ≡ eating
still_eating n i k t e = go (try_to_eat n i t) (try-Tried n i t)
  where
    go : (t' : Table) → Tried n i t t' → t'.state k ≡ eating
    go _ (kept h) = e
    go _ (ate h l r) = elim (ℕ_discrete k i) [
      | yes same ↦ ap (λ x. update t.state i eating x) same ∙ update_self t.state i eating
      | no other ↦ update_other t.state i k eating other ∙ e
    ]

-- Who is hungry, was.
was_hungry : (n i k : ℕ) (t : Table) → (try_to_eat n i t).state k ≡ hungry → t.state k ≡ hungry
was_hungry n i k t e = go (try_to_eat n i t) (try-Tried n i t) e
  where
    go : (t' : Table) → Tried n i t t' → t'.state k ≡ hungry → t.state k ≡ hungry
    go _ (kept h) e = e
    go _ (ate h l r) e = elim (ℕ_discrete k i) [
      | yes same ↦ ap (λ x. t.state x) same ∙ h
      | no other ↦ sym (update_other t.state i k eating other) ∙ e
    ]

pub try-FedAt : (n i k : ℕ) (t : Table) → FedAt n t k → FedAt n (try_to_eat n i t) k
try-FedAt n i k t fed e = elim (fed (was_hungry n i k t e)) [
  | inl l ↦ inl (still_eating n i (left_of k n) t l)
  | inr r ↦ inr (still_eating n i (right_of k n) t r)
]

pub try-FedAt_self : (n i : ℕ) (t : Table) → FedAt n (try_to_eat n i t) i
try-FedAt_self n i t = go (try_to_eat n i t) (try-Tried n i t)
  where
    go : (t' : Table) → Tried n i t t' → FedAt n t' i
    go _ (kept h) = h
    go _ (ate h l r) = λ e. absurd (cc (update_self t.state i eating, e))

pub try-Safe : (n i : ℕ) (t : Table) → i < n → Safe n t → Safe n (try_to_eat n i t)
try-Safe n i t inside safe = go (try_to_eat n i t) (try-Tried n i t)
  where
    go : (t' : Table) → Tried n i t t' → Safe n t'
    go _ (kept h) = safe
    go _ (ate h l r) = λ k lt e f. elim (ℕ_discrete k i) [
      | yes same ↦ elim (ℕ_discrete (left_of k n) i) [
        | yes turned ↦ turned ∙ sym same
        | no other ↦
            absurd (l (rw same at (sym (update_other t.state i (left_of k n) eating other) ∙ f)))
      ]
      | no other ↦ elim (ℕ_discrete (left_of k n) i) [
        | yes turned ↦
            let back : right_of i n ≡ k =
              ap (λ x. right_of x n) (sym turned) ∙ right_of-left_of k n lt in
            absurd (r (ap (λ x. t.state x) back ∙ sym (update_other t.state i k eating other) ∙ e))
        | no beside ↦
            safe k lt (sym (update_other t.state i k eating other) ∙ e)
              (sym (update_other t.state i (left_of k n) eating beside) ∙ f)
      ]
    ]

served-At :
    {bites : ℕ} {p : Place} {s : Phil} {b : Bool}
    → At bites p s b
    → s ≡ hungry
    → At bites p eating false
served-At (unserved h) e = called h
served-At outside e = absurd (cc)
served-At (at_thought h) e = absurd (cc)
served-At (called h) e = absurd (cc)
served-At (at_meal h) e = absurd (cc)
served-At away e = absurd (cc)

pub try-At :
    (n bites i k : ℕ) (p : Place) (t : Table)
    → At bites p (t.state k) (t.asleep k)
    → At bites p ((try_to_eat n i t).state k) ((try_to_eat n i t).asleep k)
try-At n bites i k p t a = go (try_to_eat n i t) (try-Tried n i t)
  where
    go : (t' : Table) → Tried n i t t' → At bites p (t'.state k) (t'.asleep k)
    go _ (kept h) = a
    go _ (ate h l r) = elim (ℕ_discrete k i) [
      | yes same ↦
          let s : update t.state i eating k ≡ eating =
            ap (update t.state i eating) same ∙ update_self t.state i eating in
          let w : update t.asleep i false k ≡ false =
            ap (update t.asleep i false) same ∙ update_self t.asleep i false in
          rw (s, w) (served-At a (ap t.state same ∙ h))
      | no other ↦
          rw (update_other t.state i k eating other, update_other t.asleep i k false other) a
    ]

pub try_place : (n i : ℕ) (t : Table) → (try_to_eat n i t).stage ≡ t.stage
try_place n i t = go (try_to_eat n i t) (try-Tried n i t)
  where
    go : (t' : Table) → Tried n i t t' → t'.stage ≡ t.stage
    go _ (kept h) = refl
    go _ (ate h l r) = refl

-- A philosopher who is hungry and tries is hungry still, or eats.
pub try_own :
    (n i : ℕ) (t : Table)
    → t.state i ≡ hungry
    → ((try_to_eat n i t).state i ≡ hungry) ⊎ ((try_to_eat n i t).state i ≡ eating)
try_own n i t e = go (try_to_eat n i t) (try-Tried n i t)
  where
    go : (t' : Table) → Tried n i t t' → (t'.state i ≡ hungry) ⊎ (t'.state i ≡ eating)
    go _ (kept h) = inl e
    go _ (ate h l r) = inr (update_self t.state i eating)

-- A change of one state, to another than `eating`.
module _ (n i : ℕ) (t : Table) (p : Phil) (starved : p ≢ eating) where
  own_state : (set_state i p t).state i ≡ p
  own_state = update_self t.state i p

  -- Who eats then, ate before.
  ate_before : (k : ℕ) → (set_state i p t).state k ≡ eating → t.state k ≡ eating
  ate_before k e = elim (ℕ_discrete k i) [
    | yes same ↦ absurd (starved (sym own_state ∙ sym (ap (update t.state i p) same) ∙ e))
    | no other ↦ sym (update_other t.state i k p other) ∙ e
  ]

  pub set-Safe : Safe n t → Safe n (set_state i p t)
  set-Safe safe k lt e f = safe k lt (ate_before k e) (ate_before (left_of k n) f)

  -- The neighbours of a philosopher who did not eat miss nothing, and the others neither.
  pub set-FedAt :
      (k : ℕ)
      → k ≢ i
      → (t.state i ≢ eating) ⊎ ((left_of k n ≢ i) × (right_of k n ≢ i))
      → FedAt n t k
      → FedAt n (set_state i p t) k
  set-FedAt k other (inl before) fed e = elim (fed (sym (update_other t.state i k p other) ∙ e)) [
    | inl l ↦
        inl (update_other t.state i (left_of k n) p (λ h. before (sym (ap t.state h) ∙ l)) ∙ l)
    | inr r ↦
        inr (update_other t.state i (right_of k n) p (λ h. before (sym (ap t.state h) ∙ r)) ∙ r)
  ]
  set-FedAt k other (inr (a, b)) fed e = elim (fed (sym (update_other t.state i k p other) ∙ e)) [
    | inl l ↦ inl (update_other t.state i (left_of k n) p a ∙ l)
    | inr r ↦ inr (update_other t.state i (right_of k n) p b ∙ r)
  ]
