-- ===== src/Mutex/Exclusion.antt =====
-- One thread at most has the mutex.
use tiny_os_project.Prelude.{
  ℕ, ◌-◌, ◌≡◌, ◌≢◌, refl, sym, ap, ◌∙◌, Bool, true, false, ltb, if◌then◌else◌, update, update_self,
  update_other, ℕ_discrete,
}
use tiny_os_project.Mutex.{
  Locker, outside, testing, holding, spinning, Mutex, mutex_spins, set_locker, locker_step,
  mutex_step, Reached, start, next,
}

-- A clear mutex is held by no thread, a set one by exactly one.
pub data IsExclusive (m : Mutex) : Type 0 where
  unheld : m.locked ≡ false → ((j : ℕ) → m.threads j ≢ holding) → IsExclusive m
  held :
      (i : ℕ)
      → m.locked ≡ true
      → m.threads i ≡ holding
      → ((j : ℕ) → m.threads j ≡ holding → j ≡ i)
      → IsExclusive m

by_test {ℓ} :
    {A : Type ℓ} (P : A → Type 0) (b : Bool) {x y : A}
    → (b ≡ true → P x)
    → (b ≡ false → P y)
    → P (if b then x else y)
by_test P true f g = f refl
by_test P false f g = g refl

module _ (i : ℕ) (m : Mutex) where
  -- A thread without the lock, at another place without it.
  moved :
      (p : Locker)
      → m.threads i ≢ holding
      → p ≢ holding
      → IsExclusive m
      → IsExclusive (set_locker i p m)
  moved p before behind (unheld e none_holds) = unheld e (λ j h. elim (ℕ_discrete j i) [
    | yes same ↦ behind (sym (ap (update m.threads i p) same ∙ update_self m.threads i p) ∙ h)
    | no other ↦ none_holds j (sym (update_other m.threads i j p other) ∙ h)
  ])
  moved p before behind (held k e own only) =
      held k e (update_other m.threads i k p (λ same. before (sym (ap m.threads same) ∙ own)) ∙ own)
        (λ j h. elim (ℕ_discrete j i) [
          | yes same ↦
              absurd (behind (sym (ap (update m.threads i p) same ∙ update_self m.threads i p) ∙ h))
          | no other ↦ only j (sym (update_other m.threads i j p other) ∙ h)
        ])

  taken :
      m.locked ≡ false
      → IsExclusive m
      → IsExclusive (record (set_locker i holding m) { locked = true })
  taken e (unheld f none_holds) = held i refl (update_self m.threads i holding) (λ j h.
      elim (ℕ_discrete j i) [
        | yes same ↦ same
        | no other ↦ absurd (none_holds j (sym (update_other m.threads i j holding other) ∙ h))
      ])
  taken e (held k f own only) = absurd (cc (e, f))

  given_up :
      m.threads i ≡ holding
      → IsExclusive m
      → IsExclusive (record (set_locker i outside m) { locked = false })
  given_up e (unheld f none_holds) = absurd (none_holds i e)
  given_up e (held k f own only) = unheld refl (λ j h. elim (ℕ_discrete j i) [
    | yes same ↦
        absurd (cc (ap (update m.threads i outside) same, update_self m.threads i outside, h))
    | no other ↦
        other (only j (sym (update_other m.threads i j outside other) ∙ h) ∙ sym (only i e))
  ])

  step-IsExclusive :
      (cores : ℕ) (interrupts : Bool) (p : Locker)
      → m.threads i ≡ p
      → IsExclusive m
      → IsExclusive (locker_step cores interrupts i p m).0
  step-IsExclusive cores interrupts outside e v =
      moved testing (λ h. absurd (cc (e, h))) (λ h. absurd (cc (h))) v
  step-IsExclusive cores interrupts testing e v =
      by_test {A = Mutex × Bool} (λ o. IsExclusive o.0) m.locked
        (λ f.
          moved (spinning (mutex_spins cores)) (λ h. absurd (cc (e, h))) (λ h. absurd (cc (h))) v)
        (λ f. taken f v)
  step-IsExclusive cores interrupts (spinning spin) e v =
      by_test {A = Mutex × Bool} (λ o. IsExclusive o.0) m.locked
        (λ f.
          by_test {A = Mutex × Bool} (λ o. IsExclusive o.0) (ltb 0 spin)
            (λ g. moved (spinning (spin - 1)) (λ h. absurd (cc (e, h))) (λ h. absurd (cc (h))) v)
            (λ g.
              moved (spinning (mutex_spins cores)) (λ h. absurd (cc (e, h))) (λ h. absurd (cc (h)))
                v))
        (λ f. moved testing (λ h. absurd (cc (e, h))) (λ h. absurd (cc (h))) v)
  step-IsExclusive cores interrupts holding e v = given_up e v

-- Whatever the order of the atomic steps of any threads in `Mutex_Lock` and `Mutex_Unlock`, where
-- only a thread that has the lock unlocks it: a mutex that is clear is held by no thread, and one
-- that is set by exactly one.
pub mutex-IsExclusive : (cores : ℕ) (m : Mutex) → Reached cores m → IsExclusive m
unfolding mutex_step
mutex-IsExclusive cores _ start = unheld refl (λ j h. absurd (cc (h)))
mutex-IsExclusive cores _ (next {m} interrupts i r) =
    step-IsExclusive i m cores interrupts (m.threads i) refl (mutex-IsExclusive cores m r)
