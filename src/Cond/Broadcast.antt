-- ===== src/Cond/Broadcast.antt =====
-- `Cond_Broadcast`.
use tiny_os_project.Prelude.{
  ℕ, zero, suc, ◌≡◌, ◌≢◌, ◌⊎◌, ◌≤◌, ◌<◌, inl, inr, Bool, true, false, some, List, [], ◌∷◌, ◌++◌,
  arith, count, count-append, length, length-append, ◌∙◌, List-cases,
}
use tiny_os_project.Sched.Queues.{IsScheduled, wakeup_asleep, wakeup_unblocked}
use tiny_os_project.Cond.{CondVar, cond_signal, broadcast_loop}
use tiny_os_project.Cond.Signal.{
  asleep, all_awake, Signalled, nobody, woken, cond_signal-Signalled, cond_signal-IsScheduled,
}

all_awake-count :
    (c : CondVar) (l : List ℕ) (w : ℕ) → all_awake c l ≡ true → 1 ≤ count w l → asleep c w ≡ false
all_awake-count c [] w a i = absurd (omega arith)
all_awake-count c (u ∷ l) w a i = ground (arith, all_awake-count c l w)

three_ways :
    (u w : ℕ) (before behind : List ℕ)
    → 1 ≤ count u (before ++ w ∷ behind)
    → (1 ≤ count u before) ⊎ (u ≡ w) ⊎ (1 ≤ count u behind)
three_ways u w before behind i = ground (arith, count-append u before (w ∷ behind))

-- What one signal does for the waiters of the list `l`: each is awake then, or still waits.
record Progress (c : CondVar) (l : List ℕ) (c' : CondVar) : Type 0 where
  shorter : (l ≡ []) ⊎ (length c'.waitset < length l)
  awake : (w : ℕ) → asleep c w ≡ false → asleep c' w ≡ false
  left : (w : ℕ) → 1 ≤ count w l → (asleep c' w ≡ false) ⊎ (1 ≤ count w c'.waitset)

signal-Progress : (c : CondVar) (l : List ℕ) (c' : CondVar) → Signalled c l c' → Progress c l c'
signal-Progress c l c' (nobody all e s t g) = record {
  shorter = elim (List-cases l) [
    | inl q ↦ inl q
    | inr (w, rest, q) ↦ inr (rw (q, e) (omega arith))
  ];
  awake = λ w a. rw (t w, s) a;
  left = λ w i. inl (rw (t w, s) (all_awake-count c l w all i));
}
signal-Progress c l c' (woken before w behind q all b e s t g) = record {
  shorter = inr (rw (q, e) (omega (arith, length-append before (w ∷ behind))));
  awake = λ u a. rw (t u, s) (wakeup_unblocked (c.waiters w).thread (c.waiters u).thread c.sched a);
  left = λ u i. elim (three_ways u w before behind (rw q at i)) [
    | inl a ↦ inl (
        rw (t u, s)
          (wakeup_unblocked (c.waiters w).thread (c.waiters u).thread c.sched
            (all_awake-count c before u all a)))
    | inr (inl a) ↦ inl (rw (t u, s, a) (wakeup_asleep (c.waiters w).thread c.sched b).1)
    | inr (inr a) ↦ inr (rw e a)
  ];
}

broadcast_loop-nil :
    (fuel : ℕ) (c : CondVar) → c.waitset ≡ [] → broadcast_loop (suc fuel) c ≡ some c
unfolding broadcast_loop
broadcast_loop-nil fuel c e = rw e

broadcast_loop-cons :
    (fuel : ℕ) (c : CondVar) (w : ℕ) (rest : List ℕ)
    → c.waitset ≡ w ∷ rest
    → broadcast_loop (suc fuel) c ≡ broadcast_loop fuel (cond_signal c)
unfolding broadcast_loop
broadcast_loop-cons fuel c w rest e = rw e

-- What the broadcast leaves: no waiter, and of those that were there none whose thread is blocked.
pub record Released (moving : ℕ → Bool) (c c' : CondVar) : Type 0 where
  pub valid : IsScheduled moving c'.sched
  pub empty : c'.waitset ≡ []
  pub awake : (w : ℕ) → asleep c w ≡ false → asleep c' w ≡ false
  pub released : (w : ℕ) → 1 ≤ count w c.waitset → asleep c' w ≡ false

not_empty : {x : ℕ} {l m : List ℕ} → l ≡ x ∷ m → l ≢ []
not_empty e q = cc

one_round :
    {moving : ℕ → Bool} (c c' : CondVar)
    → Progress c c.waitset (cond_signal c)
    → Released moving (cond_signal c) c'
    → Released moving c c'
one_round c c' p r = record {
  valid = r.valid;
  empty = r.empty;
  awake = λ w a. r.awake w (p.awake w a);
  released = λ w i. elim (p.left w i) [ inl a ↦ r.awake w a | inr j ↦ r.released w j ];
}

-- Where the scheduler's lists are right, `Cond_Broadcast` ends, given a round for each waiter and
-- one more; no waiter is left then, no thread of a waiter that was there is blocked, no thread that
-- was not blocked has become so, and the scheduler's lists are right.
pub broadcast_loop-Released :
    {moving : ℕ → Bool} (fuel : ℕ) (c : CondVar)
    → length c.waitset < fuel
    → IsScheduled moving c.sched
    → (c' : CondVar) × (broadcast_loop fuel c ≡ some c') × Released moving c c'
broadcast_loop-Released zero c h v = absurd (omega arith)
broadcast_loop-Released {moving} (suc fuel) c h v = elim (List-cases c.waitset) [
  | inl e ↦ (
    c,
    broadcast_loop-nil fuel c e,
    record { valid = v; empty = e; awake = λ w a. a; released = λ w i. absurd (ground (arith, e)) },
  )
  | inr (w, rest, e) ↦
      let p = signal-Progress c c.waitset (cond_signal c) (cond_signal-Signalled c) in
      let smaller : length (cond_signal c).waitset < fuel = elim p.shorter [
        | inl q ↦ absurd (not_empty e q)
        | inr q ↦ omega arith
      ] in
      let (c', run, r) =
        broadcast_loop-Released fuel (cond_signal c) smaller (cond_signal-IsScheduled c v) in
      (c', broadcast_loop-cons fuel c w rest e ∙ run, one_round c c' p r)
]
