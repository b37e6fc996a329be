-- ===== src/Sched/Queues.antt =====
-- The invariant of the scheduler's lists, as kernel_sched.h states it, and the operations on one thread.
use tiny_os_project.Prelude.{
  ℕ, zero, suc, ◌+◌, ◌≤◌, length, ◌-◌, ◌<◌, ◌≡◌, refl, inl, inr, Bool, true, false, not, ◌&&◌, List,
  [], ◌∷◌, ◌++◌, ◌==◌, if◌then◌else◌, update, arith, count, count-append, List-cases, Bool-cases,
}
use tiny_os_project.Sched.{
  ThreadState, Tcb, Sched, ready, stopped, priority_queues, no_timeout, set_tcb, is_blocked,
  is_ready, is_clean, is_normal, remove, sched_make_ready, wakeup, aging_loop, aging, count_yield,
  max_quantums,
}

-- What puts a thread in the queue of its priority.
abbrev pub is_queued : Tcb → Bool
is_queued t = is_ready t.state && is_clean t.phase && is_normal t.kind

abbrev pub is_stopped : ThreadState → Bool
is_stopped stopped = true
is_stopped _ = false

-- `moving` marks the threads that a core has taken from the queues and not started yet. A thread is in
-- the queue of its priority, once and in no other, exactly if it is READY with a clean context, is no
-- idle thread, and is not moving. It is in the timeout list, once, exactly if it has a wakeup time.
pub record IsScheduled (moving : ℕ → Bool) (s : Sched) : Type 0 where
  pub queue :
      (t p : ℕ)
      → count t (s.queues p)
        ≡ (if (p == (s.tcbs t).priority) && (is_queued (s.tcbs t) && not (moving t)) then 1 else 0)
  pub level : (t : ℕ) → (s.tcbs t).priority < priority_queues
  pub timeout :
      (t : ℕ) → count t s.timeout_list ≡ (if (s.tcbs t).wakeup_time == no_timeout then 0 else 1)
  pub asleep :
      (t : ℕ)
      → (if (s.tcbs t).wakeup_time == no_timeout then true else is_stopped (s.tcbs t).state) ≡ true
  pub awake : (t : ℕ) → moving t ≡ true → is_blocked (s.tcbs t).state ≡ false
  pub idle : (t : ℕ) → is_normal (s.tcbs t).kind ≡ false → is_blocked (s.tcbs t).state ≡ false

pub count-remove :
    (u t : ℕ) (l : List ℕ) → count u (remove t l) ≡ count u l - (if u == t then 1 else 0)
unfolding remove
count-remove u t [] = ground arith
count-remove u t (n ∷ l) = ground (arith, count-remove u t l)

pub length-remove : (t : ℕ) (l : List ℕ) → 1 ≤ count t l → length (remove t l) + 1 ≡ length l
unfolding remove
length-remove t [] h = absurd (omega arith)
length-remove t (n ∷ l) h = ground (arith, length-remove t l)

-- A blocked thread that is made ready leaves the timeout list, and enters its queue if its context is
-- clean.
pub make_ready-IsScheduled :
    {moving : ℕ → Bool} {s : Sched} (t : ℕ)
    → is_blocked (s.tcbs t).state ≡ true
    → IsScheduled moving s
    → IsScheduled moving (sched_make_ready t s)
unfolding sched_make_ready
make_ready-IsScheduled {moving} {s} t b v = record {
  queue = λ u p.
      ground (
        arith,
        v.queue u p,
        v.queue t p,
        v.awake t,
        v.idle t,
        count-append u (s.queues p) (t ∷ []),
      );
  level = λ u. ground (arith, v.level u, v.level t);
  timeout = λ u. ground (arith, v.timeout u, v.timeout t, count-remove u t s.timeout_list);
  asleep = λ u. ground (arith, v.asleep u, v.asleep t);
  awake = λ u m. ground (arith, v.awake u, v.awake t);
  idle = λ u m. ground (arith, v.idle u, v.idle t);
}

pub state-make_ready : (t : ℕ) (s : Sched) → ((sched_make_ready t s).tcbs t).state ≡ ready
unfolding sched_make_ready
state-make_ready t s = ground arith

-- One more thread on its way to a core, and one less.
abbrev pub also : ℕ → (ℕ → Bool) → ℕ → Bool
also t moving u = if u == t then true else moving u

abbrev pub without : ℕ → (ℕ → Bool) → ℕ → Bool
without t moving u = if u == t then false else moving u

-- Where the queues and the timeout list are right, `wakeup` keeps them right, answers whether the
-- thread was blocked, and leaves it not blocked.
pub wakeup-IsScheduled :
    {moving : ℕ → Bool} {s : Sched} (t : ℕ)
    → IsScheduled moving s
    → IsScheduled moving (wakeup t s).1
      × ((wakeup t s).0 ≡ is_blocked (s.tcbs t).state)
      × (is_blocked ((wakeup t s).1.tcbs t).state ≡ false)
unfolding wakeup
wakeup-IsScheduled {moving} {s} t v = elim (Bool-cases (is_blocked (s.tcbs t).state)) [
  | inl b ↦ rw b (make_ready-IsScheduled t b v, refl, rw (state-make_ready t s))
  | inr b ↦ rw b (v, refl, b)
]

pub wakeup_asleep :
    (t : ℕ) (s : Sched)
    → is_blocked (s.tcbs t).state ≡ true
    → ((wakeup t s).0 ≡ true) × (is_blocked ((wakeup t s).1.tcbs t).state ≡ false)
unfolding wakeup
wakeup_asleep t s b = rw b (refl, rw (state-make_ready t s))

pub wakeup_awake :
    (t : ℕ) (s : Sched) → is_blocked (s.tcbs t).state ≡ false → wakeup t s ≡ (false, s)
unfolding wakeup
wakeup_awake t s b = rw b

-- `wakeup` blocks nobody.
pub wakeup_unblocked :
    (t u : ℕ) (s : Sched)
    → is_blocked (s.tcbs u).state ≡ false
    → is_blocked ((wakeup t s).1.tcbs u).state ≡ false
unfolding wakeup sched_make_ready
wakeup_unblocked t u s b = ground arith

-- Taking the head of a queue puts its thread on its way.
pub pop-IsScheduled :
    {moving : ℕ → Bool} {s : Sched} (t c : ℕ) (rest : List ℕ)
    → s.queues c ≡ t ∷ rest
    → IsScheduled moving s
    → IsScheduled (also t moving) (record s { queues = update s.queues c rest })
pop-IsScheduled {moving} {s} t c rest e v = record {
  queue = λ u p. ground (arith, v.queue u p, v.queue t c, v.queue u c);
  level = v.level;
  timeout = v.timeout;
  asleep = v.asleep;
  awake = λ u m. ground (arith, v.awake u, v.queue t c);
  idle = v.idle;
}

-- One round of the loop of `aging`.
age-IsScheduled :
    {moving : ℕ → Bool} {s : Sched} (t c : ℕ) (rest : List ℕ)
    → s.queues c ≡ t ∷ rest
    → c + 1 < priority_queues
    → IsScheduled moving s
    → let s1 = record s { queues = update s.queues c rest } in
      let s2 = set_tcb t (record (s1.tcbs t) { priority = (s1.tcbs t).priority + 1 }) s1 in
      IsScheduled moving
        (record s2 { queues = update s2.queues (suc c) (s2.queues (suc c) ++ t ∷ []) })
age-IsScheduled {moving} {s} t c rest e h v = record {
  queue = λ u p. ground (
    arith,
    v.queue u p,
    v.queue t c,
    v.queue u c,
    v.queue t p,
    count-append u (s.queues (suc c)) (t ∷ []),
  );
  level = λ u. ground (arith, v.level u, v.queue t c);
  timeout = λ u. ground (arith, v.timeout u);
  asleep = λ u. ground (arith, v.asleep u);
  awake = λ u m. ground (arith, v.awake u);
  idle = λ u m. ground (arith, v.idle u);
}

aging_loop-IsScheduled :
    {moving : ℕ → Bool} (count : ℕ) (s : Sched)
    → count < priority_queues
    → IsScheduled moving s
    → IsScheduled moving (aging_loop count s)
unfolding aging_loop
aging_loop-IsScheduled zero s h v = v
aging_loop-IsScheduled (suc c) s h v = elim (List-cases (s.queues c)) [
  | inl e ↦ rw (e, aging_loop) (aging_loop-IsScheduled c s (omega arith) v)
  | inr (t, rest, e) ↦
      rw (e, aging_loop)
        (aging_loop-IsScheduled c _ (omega arith) (age-IsScheduled t c rest e (omega arith) v))
]

-- The boost of `aging` keeps the queues and the timeout list right: every thread that it moves
-- stands in the queue of its new priority, and no priority leaves its range.
pub aging-IsScheduled :
    {moving : ℕ → Bool} (s : Sched) → IsScheduled moving s → IsScheduled moving (aging s)
unfolding aging
aging-IsScheduled s v = aging_loop-IsScheduled 4 s (omega arith) v

-- The two counters are in no list.
pub counters-IsScheduled :
    {moving : ℕ → Bool} {s : Sched} (yields threads : ℕ)
    → IsScheduled moving s
    → IsScheduled moving (record s { yield_counter = yields; active_threads = threads })
counters-IsScheduled yields threads v = record {
  queue = v.queue;
  level = v.level;
  timeout = v.timeout;
  asleep = v.asleep;
  awake = v.awake;
  idle = v.idle;
}

pub count_yield-IsScheduled :
    {moving : ℕ → Bool} (s : Sched) → IsScheduled moving s → IsScheduled moving (count_yield s)
unfolding count_yield
count_yield-IsScheduled s v =
    let counted : IsScheduled _ (record s { yield_counter = s.yield_counter + 1 }) =
      counters-IsScheduled (s.yield_counter + 1) s.active_threads v in
    elim (Bool-cases (s.yield_counter + 1 == max_quantums)) [
      | inl full ↦ rw full (
          counters-IsScheduled 0 _
            (aging-IsScheduled (record s { yield_counter = s.yield_counter + 1 }) counted))
      | inr more ↦ rw more counted
    ]
