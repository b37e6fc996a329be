-- ===== src/Symposium/Ring.antt =====
-- The neighbours around the table.
use tiny_os_project.Prelude.{
  ℕ, zero, suc, ◌+◌, ◌-◌, ◌<◌, ◌≡◌, ◌⊎◌, refl, inl, inr, arith, ℕ_discrete,
}
use native.Mathlib.Nat.{mod-eq_of_lt, mod_self, mod-lt, add-mod_right}
use tiny_os_project.Symposium.{left_of, right_of}

left_of_lem :
    (i n : ℕ) → i < n → ((i + 1 < n) × (left_of i n ≡ i + 1)) ⊎ ((i + 1 ≡ n) × (left_of i n ≡ 0))
unfolding left_of
left_of_lem i n h = elim (ℕ_discrete (i + 1) n) [
  | yes e ↦ inr (e, rw e (mod_self n))
  | no e ↦ inl (omega arith, mod-eq_of_lt {n = i + 1} {m = n} (omega arith))
]

right_of_lem : (i n : ℕ) → i < n → ((i ≡ 0) × (right_of i n + 1 ≡ n)) ⊎ (right_of i n + 1 ≡ i)
unfolding right_of
right_of_lem zero n h =
    inl (refl, omega (arith, mod-eq_of_lt {n = 0 + n - 1} {m = n} (omega arith)))
right_of_lem (suc i) n h =
    let turn : suc i + n - 1 ≡ i + n = omega arith in
    inr (rw turn (omega (arith, add-mod_right i n, mod-eq_of_lt {n = i} {m = n} (omega arith))))

pub left_of-lt : (i n : ℕ) → i < n → left_of i n < n
unfolding left_of
left_of-lt i n h = mod-lt (i + 1) {m = n} (omega arith)

pub right_of-lt : (i n : ℕ) → i < n → right_of i n < n
unfolding right_of
right_of-lt i n h = mod-lt (i + n - 1) {m = n} (omega arith)

pub right_of-left_of : (i n : ℕ) → i < n → right_of (left_of i n) n ≡ i
right_of-left_of i n h = elim (left_of_lem i n h) [
  | inl (a, e) ↦ elim (right_of_lem (left_of i n) n (left_of-lt i n h)) [
    | inl b ↦ absurd (omega (arith, b.0, e))
    | inr b ↦ omega (arith, b, e)
  ]
  | inr (a, e) ↦ elim (right_of_lem (left_of i n) n (left_of-lt i n h)) [
    | inl b ↦ omega (arith, b.1, a)
    | inr b ↦ absurd (omega (arith, b, e))
  ]
]

pub left_of-right_of : (i n : ℕ) → i < n → left_of (right_of i n) n ≡ i
left_of-right_of i n h = elim (right_of_lem i n h) [
  | inl a ↦ elim (left_of_lem (right_of i n) n (right_of-lt i n h)) [
    | inl b ↦ absurd (omega (arith, b.0, a.1))
    | inr b ↦ omega (arith, b.1, a.0)
  ]
  | inr a ↦ elim (left_of_lem (right_of i n) n (right_of-lt i n h)) [
    | inl b ↦ omega (arith, b.1, a)
    | inr b ↦ absurd (omega (arith, b.0, a))
  ]
]
