-- ===== src/Symposium/Sections.antt =====
-- The sections of a philosopher.
use tiny_os_project.Prelude.{
  ℕ, ◌+◌, ◌*◌, ◌<◌, ◌≡◌, ◌≢◌, ◌⊎◌, refl, sym, inl, inr, ap, ◌∙◌, arith, Bool, true, ltb, ℕ_discrete,
  update, update_self, update_other, Bool-cases,
}
use tiny_os_project.Symposium.{
  Phil, not_here, thinking, hungry, eating, Place, arrives, gone, thinks, waits, eats, Table,
  left_of, right_of, set_state, try_to_eat, Move, moves, stays, wait_or_eat, section, philosopher,
}
use tiny_os_project.Symposium.Ring.{left_of-lt, right_of-lt, right_of-left_of, left_of-right_of}
use tiny_os_project.Symposium.Monitor.{
  Safe, FedAt, At, outside, at_thought, unserved, called, at_meal, away, IsSeated, try-FedAt,
  try-FedAt_self, try-Safe, try-At, try_place, try_own, set-Safe, set-FedAt,
}

-- How far a philosopher has come.
abbrev pub rank : (bites : ℕ) → Place → ℕ
rank bites arrives = 0
rank bites (thinks j) = 1 + 3 * j
rank bites (waits j) = 2 + 3 * j
rank bites (eats j) = 3 + 3 * j
rank bites gone = 2 + 3 * bites

-- How often a philosopher has eaten, at each place.
abbrev pub eaten : (bites : ℕ) → Place → ℕ
eaten bites arrives = 0
eaten bites (thinks j) = j
eaten bites (waits j) = j
eaten bites (eats j) = j
eaten bites gone = bites

-- A section that starts at the end of a call of `eat` is a meal.
abbrev pub meal : Place → ℕ
meal (eats j) = 1
meal _ = 0

-- What a section from the table `t` does: the philosopher goes on to a later place, or sleeps hungry, or
-- has left.
pub data Goes (n bites i : ℕ) (t : Table) : Move → Type 0 where
  went :
      (t' : Table) (p : Place)
      → IsSeated n bites t'
      → t'.stage ≡ update t.stage i p
      → rank bites (t.stage i) < rank bites p
      → eaten bites p ≡ eaten bites (t.stage i) + meal (t.stage i)
      → Goes n bites i t (moves t')
  slept : t.state i ≡ hungry → Goes n bites i t stays
  left_table : t.stage i ≡ gone → Goes n bites i t stays

module _ (n bites i : ℕ) (t : Table) where
  -- Inside a section, all but the place of the philosopher is right.
  record IsBetween (t1 : Table) : Type 0 where
    safe : Safe n t1
    fed : (k : ℕ) → k < n → FedAt n t1 k
    others : (k : ℕ) → k ≢ i → At bites (t.stage k) (t1.state k) (t1.asleep k)
    same : t1.stage ≡ t.stage

  -- The end of a section.
  seat :
      (t1 : Table) (p : Place) (s : ℕ → Bool)
      → IsBetween t1
      → ((k : ℕ) → k ≢ i → s k ≡ t1.asleep k)
      → At bites p (t1.state i) (s i)
      → rank bites (t.stage i) < rank bites p
      → eaten bites p ≡ eaten bites (t.stage i) + meal (t.stage i)
      → Goes n bites i t
          (moves (record { state = t1.state; asleep = s; stage = update t1.stage i p }))
  seat t1 p s m kept own further fed =
      went _ p record { safe = m.safe; fed = m.fed; places = places }
        (ap (λ f. update f i p) m.same) further fed
    where
      places : (k : ℕ) → At bites (update t1.stage i p k) (t1.state k) (s k)
      places k = elim (ℕ_discrete k i) [
        | yes same ↦ rw (same, update_self t1.stage i p) own
        | no other ↦ rw (update_other t1.stage i k p other, m.same, kept k other) (m.others k other)
      ]

  -- The test of the loop around `Cond_Wait`.
  looped :
      (t1 : Table) (j : ℕ)
      → IsBetween t1
      → j < bites
      → (t1.state i ≡ hungry) ⊎ (t1.state i ≡ eating)
      → rank bites (t.stage i) < 2 + 3 * j
      → j ≡ eaten bites (t.stage i) + meal (t.stage i)
      → Goes n bites i t (wait_or_eat i j t1)
  looped t1 j m h (inl e) further fed = rw e (
      seat t1 (waits j) (update t1.asleep i true) m (λ k. update_other t1.asleep i k true)
        (rw (e, update_self t1.asleep i true) (unserved h)) further fed)
  looped t1 j m h (inr e) further fed = rw e (
      seat t1 (eats j) t1.asleep m (λ k other. refl) (rw e (at_meal h)) (omega (arith, further))
        fed)

  module _ (v : IsSeated n bites t) (inside : i < n) where
    -- A change of the own state outside a meal.
    quiet : (p : Phil) → p ≢ eating → p ≢ hungry → t.state i ≢ eating → IsBetween (set_state i p t)
    quiet p starved full before = record {
      safe = set-Safe n i t p starved v.safe;
      fed = λ k lt. elim (ℕ_discrete k i) [
        | yes same ↦
            λ e. absurd (full (sym (ap (update t.state i p) same ∙ update_self t.state i p) ∙ e))
        | no other ↦ set-FedAt n i t p starved k other (inl before) (v.fed k lt)
      ];
      others = λ k other. rw (update_other t.state i k p other) (v.places k);
      same = refl;
    }

    hungered : t.state i ≢ eating → IsBetween (try_to_eat n i (set_state i hungry t))
    hungered before =
        let t0 : Table = set_state i hungry t in
        let hunger : hungry ≢ eating = λ e. absurd (cc (e)) in
        record {
          safe = try-Safe n i t0 inside (set-Safe n i t hungry hunger v.safe);
          fed = λ k lt. elim (ℕ_discrete k i) [
            | yes same ↦ rw same (try-FedAt_self n i t0)
            | no other ↦
                try-FedAt n i k t0 (set-FedAt n i t hungry hunger k other (inl before) (v.fed k lt))
          ];
          others = λ k other.
              try-At n bites i k (t.stage k) t0
                (rw (update_other t.state i k hungry other) (v.places k));
          same = try_place n i t0;
        }

    -- The end of a meal: only the two neighbours can miss something, and both are tried.
    finished :
        IsBetween
          (try_to_eat n (right_of i n) (try_to_eat n (left_of i n) (set_state i thinking t)))
    finished =
        let t0 : Table = set_state i thinking t in
        let t1 : Table = try_to_eat n (left_of i n) t0 in
        let thought : thinking ≢ eating = λ e. absurd (cc (e)) in
        record {
          safe = try-Safe n (right_of i n) t1 (right_of-lt i n inside) (
              try-Safe n (left_of i n) t0 (left_of-lt i n inside)
                (set-Safe n i t thinking thought v.safe));
          fed = λ k lt. elim (ℕ_discrete k (right_of i n)) [
            | yes same ↦ rw same (try-FedAt_self n (right_of i n) t1)
            | no a ↦ try-FedAt n (right_of i n) k t1 (elim (ℕ_discrete k (left_of i n)) [
              | yes same ↦ rw same (try-FedAt_self n (left_of i n) t0)
              | no b ↦ try-FedAt n (left_of i n) k t0 (elim (ℕ_discrete k i) [
                | yes same ↦ λ e.
                    absurd
                      (cc (ap (update t.state i thinking) same, update_self t.state i thinking, e))
                | no other ↦
                    set-FedAt n i t thinking thought k other
                      (inr (
                        (λ e. a (sym (right_of-left_of k n lt) ∙ ap (λ x. right_of x n) e)),
                        (λ e. b (sym (left_of-right_of k n lt) ∙ ap (λ x. left_of x n) e)),
                      ))
                      (v.fed k lt)
              ])
            ])
          ];
          others = λ k other. try-At n bites (right_of i n) k (t.stage k) t1 (
              try-At n bites (left_of i n) k (t.stage k) t0
                (rw (update_other t.state i k thinking other) (v.places k)));
          same = try_place n (right_of i n) t1 ∙ try_place n (left_of i n) t0;
        }

    section-Goes_at :
        (p : Place) (s : Phil) (b : Bool)
        → At bites p s b
        → t.stage i ≡ p
        → t.state i ≡ s
        → t.asleep i ≡ b
        → Goes n bites i t (section n bites i p t)
    section-Goes_at _ _ _ outside e f g =
        seat (set_state i thinking t) (thinks 0) t.asleep
          (quiet thinking (λ h. absurd (cc (h))) (λ h. absurd (cc (h))) (λ h. absurd (cc (f, h))))
          (λ k other. refl) (rw (update_self t.state i thinking) (at_thought (omega arith)))
          (rw e (omega arith)) (rw e refl)
    section-Goes_at _ _ _ (at_thought {j} h) e f g = elim (Bool-cases (ltb j bites)) [
      | inl more ↦
          let t0 : Table = set_state i hungry t in
          rw more (
            looped (try_to_eat n i t0) j (hungered (λ x. absurd (cc (f, x)))) (ground (arith, more))
              (try_own n i t0 (update_self t.state i hungry)) (rw e (omega arith))
              (rw e (omega arith)))
      | inr done ↦ rw done (
          seat (set_state i not_here t) gone t.asleep
            (quiet not_here (λ x. absurd (cc (x))) (λ x. absurd (cc (x))) (λ x. absurd (cc (f, x))))
            (λ k other. refl) (rw (update_self t.state i not_here) away) (rw e (omega (arith, h)))
            (rw e (ground (arith, h, done))))
    ]
    section-Goes_at _ _ _ (unserved h) e f g = rw g (slept f)
    section-Goes_at _ _ _ (called {j} h) e f g = rw g (
        rw f (
          seat t (eats j) t.asleep
            record { safe = v.safe; fed = v.fed; others = λ k other. v.places k; same = refl }
            (λ k other. refl) (rw f (at_meal h)) (rw e (omega arith)) (rw e (omega arith))))
    section-Goes_at _ _ _ (at_meal {j} h) e f g =
        let t0 : Table = set_state i thinking t in
        let t1 : Table = try_to_eat n (left_of i n) t0 in
        let t2 : Table = try_to_eat n (right_of i n) t1 in
        seat t2 (thinks (j + 1)) t2.asleep finished (λ k other. refl)
          (try-At n bites (right_of i n) i (thinks (j + 1)) t1 (
            try-At n bites (left_of i n) i (thinks (j + 1)) t0
              (rw (update_self t.state i thinking) (at_thought (omega (arith, h))))))
          (rw e (omega arith)) (rw e refl)
    section-Goes_at _ _ _ away e f g = left_table e

pub philosopher-Goes :
    (n bites i : ℕ) (t : Table)
    → IsSeated n bites t
    → i < n
    → Goes n bites i t (philosopher n bites i t)
unfolding philosopher
philosopher-Goes n bites i t v inside =
    section-Goes_at n bites i t v inside (t.stage i) (t.state i) (t.asleep i) (v.places i) refl refl
      refl
