-- ===== src/Sched/Wake.antt =====
-- `sched_wakeup_expired_timeouts`.
use tiny_os_project.Prelude.{
  ℕ, zero, suc, ◌≤◌, ◌<◌, ◌≡◌, ◌≢◌, refl, inl, inr, Bool, true, some, List, [], ◌∷◌, ltb, ◌==◌,
  if◌then◌else◌, arith, count, List-cases, Bool-cases, length, ◌∙◌, ◌⊎◌, ℕ_discrete,
}
use tiny_os_project.Sched.{
  Tcb, Sched, ready, no_timeout, is_blocked, remove, sched_make_ready, wake_loop,
}
use tiny_os_project.Sched.Queues.{make_ready-IsScheduled}
use tiny_os_project.Sched.Timeouts.{Ordered, Ordered-congr, IsTimed}

-- One round of `sched_wakeup_expired_timeouts`.
timeout_list-make_ready :
    (t : ℕ) (s : Sched)
    → (s.tcbs t).wakeup_time ≢ no_timeout
    → (sched_make_ready t s).timeout_list ≡ remove t s.timeout_list
unfolding sched_make_ready
timeout_list-make_ready t s h = ground arith

same-make_ready :
    (t u : ℕ) (s : Sched)
    → (((sched_make_ready t s).tcbs u).phase ≡ (s.tcbs u).phase)
      × (((sched_make_ready t s).tcbs u).kind ≡ (s.tcbs u).kind)
      × (((sched_make_ready t s).tcbs u).state ≡ (if u == t then ready else (s.tcbs u).state))
      × (u ≢ t → ((sched_make_ready t s).tcbs u).wakeup_time ≡ (s.tcbs u).wakeup_time)
unfolding sched_make_ready
same-make_ready t u s = (ground arith, ground arith, ground arith, λ h. ground arith)

-- What the loop has done when it stops: it has woken threads up, and nobody who is left in the timeout
-- list is due.
pub record Woken (moving : ℕ → Bool) (now : ℕ) (s s' : Sched) : Type 0 where
  pub valid : IsTimed moving s'
  pub phases : (t : ℕ) → (s'.tcbs t).phase ≡ (s.tcbs t).phase
  pub kinds : (t : ℕ) → (s'.tcbs t).kind ≡ (s.tcbs t).kind
  pub states :
      (t : ℕ)
      → ((s'.tcbs t).state ≡ (s.tcbs t).state)
        ⊎ (is_blocked (s.tcbs t).state ≡ true)
          × ((s'.tcbs t).state ≡ ready)
          × ((s.tcbs t).wakeup_time ≤ now)
  pub due : (t : ℕ) → (now < (s'.tcbs t).wakeup_time) ⊎ ((s'.tcbs t).wakeup_time ≡ no_timeout)

Ordered-above :
    (tcbs : ℕ → Tcb) (lo u : ℕ) (l : List ℕ)
    → Ordered tcbs lo l
    → 1 ≤ count u l
    → lo ≤ (tcbs u).wakeup_time
Ordered-above tcbs lo u [] o i = absurd (omega arith)
Ordered-above tcbs lo u (t ∷ l) (a, o) i = elim (ℕ_discrete u t) [
  | yes e ↦ rw e a
  | no e ↦ omega (arith, Ordered-above tcbs (tcbs t).wakeup_time u l o (ground arith))
]

Ordered-lower :
    (tcbs : ℕ → Tcb) (lo lo' : ℕ) (l : List ℕ) → lo ≤ lo' → Ordered tcbs lo' l → Ordered tcbs lo l
Ordered-lower tcbs lo lo' [] h o = tt
Ordered-lower tcbs lo lo' (t ∷ l) h (a, o) = (omega arith, o)

remove_head : (t : ℕ) (l : List ℕ) → remove t (t ∷ l) ≡ l
unfolding remove
remove_head t l = ground arith

module _ {moving : ℕ → Bool} {s : Sched} (t : ℕ) (rest : List ℕ) (e : s.timeout_list ≡ t ∷ rest)
    (v : IsTimed moving s) where
  has_time : (s.tcbs t).wakeup_time ≢ no_timeout
  has_time q = ground (arith, v.lists.timeout t)

  head_blocked : is_blocked (s.tcbs t).state ≡ true
  head_blocked = ground (arith, v.lists.asleep t, has_time)

  tail_list : (sched_make_ready t s).timeout_list ≡ rest
  tail_list = timeout_list-make_ready t s has_time ∙ rw e (remove_head t rest)

  head-IsTimed : IsTimed moving (sched_make_ready t s)
  head-IsTimed = record {
    lists = make_ready-IsScheduled t head_blocked v.lists;
    order =
        let (_, behind) = rw e at v.order in
        rw tail_list (
          Ordered-congr s.tcbs (sched_make_ready t s).tcbs 0 rest
            (λ u i. (same-make_ready t u s).3 (λ q. ground (arith, v.lists.timeout t)))
            (Ordered-lower s.tcbs 0 (s.tcbs t).wakeup_time rest (omega arith) behind));
  }

  head-Woken :
      {s' : Sched} (now : ℕ)
      → (s.tcbs t).wakeup_time ≤ now
      → Woken moving now (sched_make_ready t s) s'
      → Woken moving now s s'
  head-Woken now h w = record {
    valid = w.valid;
    phases = λ u. w.phases u ∙ (same-make_ready t u s).0;
    kinds = λ u. w.kinds u ∙ (same-make_ready t u s).1;
    states = λ u.
        ground
          (arith, w.states u, (same-make_ready t u s).2, (same-make_ready t u s).3, head_blocked);
    due = w.due;
  }

stay-Woken :
    {moving : ℕ → Bool} {s : Sched} (now : ℕ)
    → IsTimed moving s
    → ((u : ℕ) → 1 ≤ count u s.timeout_list → now < (s.tcbs u).wakeup_time)
    → Woken moving now s s
stay-Woken {s = s} now v none_due = record {
  valid = v;
  phases = λ t. refl;
  kinds = λ t. refl;
  states = λ t. inl refl;
  due = λ t. ground (arith, v.lists.timeout t, none_due t);
}

wake_loop-nil :
    (fuel now : ℕ) (s : Sched) → s.timeout_list ≡ [] → wake_loop (suc fuel) now s ≡ some s
unfolding wake_loop
wake_loop-nil fuel now s e = ground arith

wake_loop-cons :
    (fuel now : ℕ) (s : Sched) (t : ℕ) (rest : List ℕ)
    → s.timeout_list ≡ t ∷ rest
    → wake_loop (suc fuel) now s ≡ (
        if ltb now (s.tcbs t).wakeup_time
        then some s
        else wake_loop fuel now (sched_make_ready t s))
unfolding wake_loop
wake_loop-cons fuel now s t rest e = ground arith

-- Where the scheduler's lists are right, the loop of `sched_wakeup_expired_timeouts` ends, given a
-- round for each sleeping thread and one more; the lists are right then, no thread that still has a
-- wakeup time is due, and the only threads whose state changed were blocked and due, and are READY.
pub wake_loop-Woken :
    {moving : ℕ → Bool} (fuel now : ℕ) (s : Sched)
    → length s.timeout_list < fuel
    → IsTimed moving s
    → (s' : Sched) × (wake_loop fuel now s ≡ some s') × Woken moving now s s'
wake_loop-Woken zero now s h v = absurd (omega arith)
wake_loop-Woken {moving} (suc fuel) now s h v = elim (List-cases s.timeout_list) [
  | inl e ↦ (s, wake_loop-nil fuel now s e, stay-Woken now v (λ u i. ground arith))
  | inr (t, rest, e) ↦ elim (Bool-cases (ltb now (s.tcbs t).wakeup_time)) [
    | inl later ↦
        let (_, behind) = rw e at v.order in
        (
          s,
          rw (wake_loop-cons fuel now s t rest e, later),
          stay-Woken now v
              λ u i. ground (arith, Ordered-above s.tcbs (s.tcbs t).wakeup_time u rest behind),
        )
    | inr due ↦
        let (s', run, w) =
          wake_loop-Woken fuel now (sched_make_ready t s) (ground (arith, tail_list t rest e v))
            (head-IsTimed t rest e v) in
        (
          s',
          rw (wake_loop-cons fuel now s t rest e, due) run,
          head-Woken t rest e v now (ground arith) w,
        )
  ]
]
