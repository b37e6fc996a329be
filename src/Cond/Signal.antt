-- ===== src/Cond/Signal.antt =====
-- `cv_signal` and `Cond_Signal`.
use tiny_os_project.Prelude.{
  ℕ, ◌≡◌, refl, inl, inr, Bool, true, false, not, ◌&&◌, List, [], ◌∷◌, ◌++◌, ◌==◌, if◌then◌else◌,
  arith, Bool-cases, ap, ◌∙◌, subst, sym,
}
use tiny_os_project.Sched.{is_blocked, wakeup}
use tiny_os_project.Sched.Queues.{IsScheduled, wakeup-IsScheduled, wakeup_asleep, wakeup_awake}
use tiny_os_project.Cond.{CondVar, mark_removed, mark_signalled, signal_loop, cond_signal}

-- The thread of a waiter is blocked.
abbrev pub asleep : CondVar → ℕ → Bool
asleep c w = is_blocked (c.sched.tcbs (c.waiters w).thread).state

abbrev pub all_awake : CondVar → List ℕ → Bool
all_awake c [] = true
all_awake c (w ∷ l) = not (asleep c w) && all_awake c l

-- What a signal does to the waiters `l`: the first whose thread is blocked is signalled and woken up,
-- and those before it are dropped; if no thread is blocked all are dropped and nobody is woken up.
pub data Signalled (c : CondVar) (l : List ℕ) (c' : CondVar) : Type 0 where
  nobody :
      all_awake c l ≡ true
      → c'.waitset ≡ []
      → c'.sched ≡ c.sched
      → ((w : ℕ) → (c'.waiters w).thread ≡ (c.waiters w).thread)
      → ((w : ℕ) → (c'.waiters w).signalled ≡ (c.waiters w).signalled)
      → Signalled c l c'
  woken :
      (before : List ℕ) (w : ℕ) (behind : List ℕ)
      → l ≡ before ++ w ∷ behind
      → all_awake c before ≡ true
      → asleep c w ≡ true
      → c'.waitset ≡ behind
      → c'.sched ≡ (wakeup (c.waiters w).thread c.sched).1
      → ((u : ℕ) → (c'.waiters u).thread ≡ (c.waiters u).thread)
      → ((u : ℕ) → (c'.waiters u).signalled ≡ (if u == w then true else (c.waiters u).signalled))
      → Signalled c l c'

-- The state after a round took out the waiter `w`.
abbrev dropped : ℕ → List ℕ → CondVar → CondVar
dropped w rest c = mark_removed w (record c { waitset = rest })

thread-dropped :
    (w u : ℕ) (rest : List ℕ) (c : CondVar)
    → ((dropped w rest c).waiters u).thread ≡ (c.waiters u).thread
thread-dropped w u rest c = ground arith

signalled-dropped :
    (w u : ℕ) (rest : List ℕ) (c : CondVar)
    → ((dropped w rest c).waiters u).signalled ≡ (c.waiters u).signalled
signalled-dropped w u rest c = ground arith

all_awake-dropped :
    (w : ℕ) (rest l : List ℕ) (c : CondVar) → all_awake (dropped w rest c) l ≡ all_awake c l
all_awake-dropped w rest [] c = refl
all_awake-dropped w rest (u ∷ l) c = rw (thread-dropped w u rest c, all_awake-dropped w rest l c)

signal_loop-awake :
    (w : ℕ) (rest : List ℕ) (c : CondVar)
    → asleep c w ≡ false
    → signal_loop (w ∷ rest) c ≡ signal_loop rest (dropped w rest c)
unfolding signal_loop
signal_loop-awake w rest c a =
    rw (thread-dropped w w rest c, wakeup_awake (c.waiters w).thread c.sched a)

signal_loop-asleep :
    (w : ℕ) (rest : List ℕ) (c : CondVar)
    → asleep c w ≡ true
    → signal_loop (w ∷ rest) c
      ≡ mark_signalled w
          (record (dropped w rest c) { sched = (wakeup (c.waiters w).thread c.sched).1 })
unfolding signal_loop
signal_loop-asleep w rest c a =
    rw (thread-dropped w w rest c, (wakeup_asleep (c.waiters w).thread c.sched a).0)

after_drop :
    (w : ℕ) (rest : List ℕ) (c c' : CondVar)
    → asleep c w ≡ false
    → Signalled (dropped w rest c) rest c'
    → Signalled c (w ∷ rest) c'
after_drop w rest c c' a (nobody all e s t g) =
    nobody (ground (arith, a, all_awake-dropped w rest rest c, all)) e s
      (λ u. t u ∙ thread-dropped w u rest c) (λ u. g u ∙ signalled-dropped w u rest c)
after_drop w rest c c' a (woken before v behind l all b e s t g) =
    woken (w ∷ before) v behind (ap (λ m. w ∷ m) l)
      (ground (arith, a, all_awake-dropped w rest before c, all))
      (rw (thread-dropped w v rest c) at b) e (rw (thread-dropped w v rest c) at s)
      (λ u. t u ∙ thread-dropped w u rest c)
      (λ u. ground (arith, g u, signalled-dropped w u rest c))

signal_loop-Signalled : (l : List ℕ) (c : CondVar) → Signalled c l (signal_loop l c)
unfolding signal_loop
signal_loop-Signalled [] c = nobody refl refl refl (λ w. refl) (λ w. refl)
signal_loop-Signalled (w ∷ rest) c = elim (Bool-cases (asleep c w)) [
  | inl b ↦
      subst (Signalled c (w ∷ rest)) (sym (signal_loop-asleep w rest c b))
        (woken [] w rest refl refl b refl refl (λ u. ground arith) (λ u. ground arith))
  | inr b ↦
      subst (Signalled c (w ∷ rest)) (sym (signal_loop-awake w rest c b))
        (after_drop w rest c _ b (signal_loop-Signalled rest (dropped w rest c)))
]

-- `Cond_Signal` wakes up and marks as signalled the first waiter whose thread is blocked, drops it
-- and those before it, and leaves those behind it waiting; if no waiter's thread is blocked it
-- drops all, marks none and leaves the scheduler as it was.
pub cond_signal-Signalled : (c : CondVar) → Signalled c c.waitset (cond_signal c)
unfolding cond_signal
cond_signal-Signalled c = signal_loop-Signalled c.waitset c

-- Where the scheduler's lists are right, `Cond_Signal` keeps them right.
pub cond_signal-IsScheduled :
    {moving : ℕ → Bool} (c : CondVar)
    → IsScheduled moving c.sched
    → IsScheduled moving (cond_signal c).sched
cond_signal-IsScheduled {moving} c v = kept (cond_signal-Signalled c)
  where
    kept : {c' : CondVar} → Signalled c c.waitset c' → IsScheduled moving c'.sched
    kept (nobody all e s t g) = rw s v
    kept (woken before w behind l all b e s t g) =
        rw s (wakeup-IsScheduled (c.waiters w).thread v).0
