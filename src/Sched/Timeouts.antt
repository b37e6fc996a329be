-- ===== src/Sched/Timeouts.antt =====
-- `sched_register_timeout`, `sleep_releasing` and the order of the timeout list.
use tiny_os_project.Prelude.{
  ℕ, ◌+◌, ◌≤◌, ◌<◌, ◌%◌, ◌^◌, ◌≡◌, refl, inl, inr, Bool, true, false, List, [], ◌∷◌, ltb, ◌==◌,
  if◌then◌else◌, update, arith, count, Bool-cases, ◌⊎◌,
}
use tiny_os_project.Sched.{
  Tcb, Ccb, Sched, ThreadState, running, stopped, exited, no_timeout, set_tcb, is_normal,
  insert_timeout, sleep_releasing,
}
use tiny_os_project.Sched.Queues.{IsScheduled}

-- The timeout list is ordered by wakeup time, with `lo` before all of it.
abbrev pub Ordered : (ℕ → Tcb) → ℕ → List ℕ → Type 0
Ordered tcbs lo [] = Unit {0}
Ordered tcbs lo (t ∷ l) = (lo ≤ (tcbs t).wakeup_time) × Ordered tcbs (tcbs t).wakeup_time l

pub Ordered-congr :
    (f g : ℕ → Tcb) (lo : ℕ) (l : List ℕ)
    → ((t : ℕ) → 1 ≤ count t l → (g t).wakeup_time ≡ (f t).wakeup_time)
    → Ordered f lo l
    → Ordered g lo l
Ordered-congr f g lo [] same o = tt
Ordered-congr f g lo (t ∷ l) same (a, o) =
    let here : (g t).wakeup_time ≡ (f t).wakeup_time = same t (ground arith) in
    rw here (a, Ordered-congr f g _ l (λ u i. same u (omega arith)) o)

insert_timeout-Ordered :
    (tcbs : ℕ → Tcb) (t lo : ℕ) (l : List ℕ)
    → lo ≤ (tcbs t).wakeup_time
    → Ordered tcbs lo l
    → Ordered tcbs lo (insert_timeout tcbs t l)
unfolding insert_timeout
insert_timeout-Ordered tcbs t lo [] h o = (h, tt)
insert_timeout-Ordered tcbs t lo (n ∷ l) h (a, o) =
    elim (Bool-cases (ltb (tcbs t).wakeup_time (tcbs n).wakeup_time)) [
      | inl before ↦ rw before (h, (ground arith, o))
      | inr after ↦
          rw after (a, insert_timeout-Ordered tcbs t (tcbs n).wakeup_time l (ground arith) o)
    ]

count-insert_timeout :
    (tcbs : ℕ → Tcb) (u t : ℕ) (l : List ℕ)
    → count u (insert_timeout tcbs t l) ≡ (if u == t then 1 else 0) + count u l
unfolding insert_timeout
count-insert_timeout tcbs u t [] = refl
count-insert_timeout tcbs u t (n ∷ l) = ground (arith, count-insert_timeout tcbs u t l)

-- The scheduler's lists together with the order of the timeout list.
pub record IsTimed (moving : ℕ → Bool) (s : Sched) : Type 0 where
  pub lists : IsScheduled moving s
  pub order : Ordered s.tcbs 0 s.timeout_list

-- A running thread that stops.
stop-IsTimed :
    {moving : ℕ → Bool} {s : Sched} (t : ℕ) (state : ThreadState)
    → (state ≡ stopped) ⊎ (state ≡ exited)
    → (s.tcbs t).state ≡ running
    → is_normal (s.tcbs t).kind ≡ true
    → moving t ≡ false
    → IsTimed moving s
    → IsTimed moving (set_tcb t (record (s.tcbs t) { state = state }) s)
stop-IsTimed {moving} {s} t state kinds runs normal still v = record {
  lists = record {
    queue = λ u p. ground (arith, v.lists.queue u p);
    level = λ u. ground (arith, v.lists.level u);
    timeout = λ u. ground (arith, v.lists.timeout u);
    asleep = λ u. ground (arith, v.lists.asleep u);
    awake = λ u m. ground (arith, v.lists.awake u);
    idle = λ u m. ground (arith, v.lists.idle u);
  };
  order =
      Ordered-congr s.tcbs (update s.tcbs t (record (s.tcbs t) { state = state })) 0 s.timeout_list
        (λ u i. ground arith) v.order;
}

-- The wakeup time of a thread without one.
with_timeout-IsTimed :
    {moving : ℕ → Bool} {s : Sched} (t time : ℕ)
    → (s.tcbs t).state ≡ stopped
    → (s.tcbs t).wakeup_time ≡ no_timeout
    → time < no_timeout
    → IsTimed moving s
    → let s' = set_tcb t (record (s.tcbs t) { wakeup_time = time }) s in
      IsTimed moving (record s' { timeout_list = insert_timeout s'.tcbs t s'.timeout_list })
with_timeout-IsTimed {moving} {s} t time stops free h v = record {
  lists = record {
    queue = λ u p. ground (arith, v.lists.queue u p);
    level = λ u. ground (arith, v.lists.level u);
    timeout = λ u. ground (
      arith,
      v.lists.timeout u,
      count-insert_timeout (update s.tcbs t (record (s.tcbs t) { wakeup_time = time })) u t
          s.timeout_list,
    );
    asleep = λ u. ground (arith, v.lists.asleep u);
    awake = λ u m. ground (arith, v.lists.awake u);
    idle = λ u m. ground (arith, v.lists.idle u);
  };
  order =
      let after : ℕ → Tcb = update s.tcbs t (record (s.tcbs t) { wakeup_time = time }) in
      insert_timeout-Ordered after t 0 s.timeout_list (omega arith) (
        Ordered-congr s.tcbs after 0 s.timeout_list (λ u i. ground (arith, v.lists.timeout u))
          v.order);
}

-- Where the core runs a normal thread that no core has taken from a queue, and the timeout is
-- NO_TIMEOUT or ends before the clock does, `sleep_releasing`, for STOPPED and for EXITED, keeps
-- the scheduler's lists right, the timeout list in the order of the wakeup times.
pub sleep_releasing-IsTimed :
    {moving : ℕ → Bool} {s : Sched} (state : ThreadState) (timeout now : ℕ) (core : Ccb)
    → (state ≡ stopped) ⊎ (state ≡ exited)
    → (timeout ≡ no_timeout) ⊎ (now + timeout < no_timeout)
    → (s.tcbs core.current_thread).state ≡ running
    → is_normal (s.tcbs core.current_thread).kind ≡ true
    → moving core.current_thread ≡ false
    → IsTimed moving s
    → IsTimed moving (sleep_releasing state timeout now core s)
unfolding sleep_releasing
sleep_releasing-IsTimed {moving} {s} state timeout now core (inr e) fits runs normal still v =
    rw e (stop-IsTimed core.current_thread exited (inr refl) runs normal still v)
sleep_releasing-IsTimed {moving} {s} state timeout now core (inl e) fits runs normal still v =
    rw e (elim (Bool-cases (timeout == no_timeout)) [
      | inl never ↦ rw never stopped_too
      | inr later ↦
          let small : now + timeout < no_timeout = ground arith in
          let whole : (now + timeout) % 2 ^ 64 ≡ now + timeout = omega arith in
          rw (later, whole)
            (with_timeout-IsTimed core.current_thread (now + timeout) (ground arith)
              (ground (arith, v.lists.asleep core.current_thread)) small stopped_too)
    ])
  where
    stopped_too :
        IsTimed moving
          (set_tcb core.current_thread (record (s.tcbs core.current_thread) { state = stopped }) s)
    stopped_too = stop-IsTimed core.current_thread stopped (inl refl) runs normal still v
