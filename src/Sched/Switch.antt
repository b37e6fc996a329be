-- ===== src/Sched/Switch.antt =====
-- The selection of the next thread, and what it leaves for `yield` and `gain`.
use tiny_os_project.Prelude.{
  ℕ, zero, suc, ◌≤◌, ◌⊎◌, ◌<◌, ◌≡◌, refl, inl, inr, Bool, true, false, not, ◌&&◌, Option, none,
  some, List, [], ◌∷◌, ◌==◌, if◌then◌else◌, update, arith, count, List-cases, Bool-cases,
  ℕ_discrete, ap,
}
use tiny_os_project.Sched.{
  Tcb, Sched, priority_queues, set_tcb, is_blocked, is_ready, is_normal, pop_highest, or_else,
  sched_queue_select, quantum,
}
use tiny_os_project.Sched.Timeouts.{Ordered-congr, IsTimed}
use tiny_os_project.Sched.Queues.{is_queued, is_stopped, IsScheduled, also, pop-IsScheduled}

-- A change of one thread that no list depends on.
pub quiet-IsTimed :
    {moving : ℕ → Bool} {s : Sched} (t : ℕ) (x : Tcb)
    → is_queued x && not (moving t) ≡ is_queued (s.tcbs t) && not (moving t)
    → (if is_queued (s.tcbs t) && not (moving t) then x.priority == (s.tcbs t).priority else true)
      ≡ true
    → x.priority < priority_queues
    → x.wakeup_time ≡ (s.tcbs t).wakeup_time
    → is_stopped x.state ≡ is_stopped (s.tcbs t).state
    → is_blocked x.state ≡ is_blocked (s.tcbs t).state
    → x.kind ≡ (s.tcbs t).kind
    → IsTimed moving s
    → IsTimed moving (set_tcb t x s)
quiet-IsTimed {moving} {s} t x q same level w st b k v = record {
  lists = record {
    queue = λ u p. ground (arith, v.lists.queue u p);
    level = λ u. ground (arith, v.lists.level u);
    timeout = λ u. ground (arith, v.lists.timeout u);
    asleep = λ u. ground (arith, v.lists.asleep u);
    awake = λ u m. ground (arith, v.lists.awake u);
    idle = λ u m. ground (arith, v.lists.idle u);
  };
  order = Ordered-congr s.tcbs (update s.tcbs t x) 0 s.timeout_list (λ u i. ground arith) v.order;
}

-- The thread popped is the head of the highest queue that is not empty; it is on its way then.
pub data Popped (moving : ℕ → Bool) (counter : ℕ) (s : Sched) : Option ℕ × Sched → Type 0 where
  empty : ((p : ℕ) → p < counter → s.queues p ≡ []) → Popped moving counter s (none, s)
  popped :
      (t c : ℕ) (rest : List ℕ)
      → c < counter
      → s.queues c ≡ t ∷ rest
      → ((p : ℕ) → c < p → p < counter → s.queues p ≡ [])
      → IsScheduled (also t moving) (record s { queues = update s.queues c rest })
      → Popped moving counter s (some t, record s { queues = update s.queues c rest })

lower :
    {moving : ℕ → Bool} {c : ℕ} {s : Sched} {out : Option ℕ × Sched}
    → Popped moving c s out
    → s.queues c ≡ []
    → Popped moving (suc c) s out
lower {c = c} (empty all) e =
    empty (λ p h. elim (ℕ_discrete p c) [ yes q ↦ rw q e | no q ↦ all p (omega arith) ])
lower {c = c} (popped t d rest h q all w) e =
    popped t d rest (omega arith) q
      (λ p a b. elim (ℕ_discrete p c) [ yes q ↦ rw q e | no q ↦ all p a (omega arith) ]) w

pub pop_highest-Popped :
    {moving : ℕ → Bool} (counter : ℕ) (s : Sched)
    → IsScheduled moving s
    → Popped moving counter s (pop_highest counter s)
unfolding pop_highest
pop_highest-Popped zero s v = empty (λ p h. absurd (omega arith))
pop_highest-Popped (suc c) s v = elim (List-cases (s.queues c)) [
  | inl e ↦ rw (e, pop_highest) (lower (pop_highest-Popped c s v) e)
  | inr (t, rest, e) ↦
      rw (e, pop_highest)
        (popped t c rest (omega arith) e (λ p a b. absurd (omega arith))
          (pop-IsScheduled t c rest e v))
]

-- A thread that is in no queue may be on its way to a core, if it is not blocked.
also-IsScheduled :
    {moving : ℕ → Bool} {s : Sched} (t : ℕ)
    → is_queued (s.tcbs t) ≡ false
    → is_blocked (s.tcbs t).state ≡ false
    → IsScheduled moving s
    → IsScheduled (also t moving) s
also-IsScheduled {moving} {s} t q b v = record {
  queue = λ u p. ground (arith, v.queue u p);
  level = v.level;
  timeout = v.timeout;
  asleep = v.asleep;
  awake = λ u m. ground (arith, v.awake u);
  idle = v.idle;
}

-- What `sched_queue_select` leaves: the thread chosen is on its way, and of the thread blocks only the
-- time slice of that one changed.
pub record Selected (moving : ℕ → Bool) (s : Sched) (out : ℕ × Sched) : Type 0 where
  pub valid : IsTimed (also out.0 moving) out.1
  pub same : (t : ℕ) → out.1.tcbs t ≡ record (s.tcbs t) { its = (out.1.tcbs t).its }
  pub slice : (out.1.tcbs out.0).its ≡ quantum

its-Selected :
    {moving : ℕ → Bool} {s s' : Sched} (next : ℕ)
    → s'.tcbs ≡ s.tcbs
    → IsTimed (also next moving) s'
    → Selected moving s (next, set_tcb next (record (s'.tcbs next) { its = quantum }) s')
its-Selected {moving} {s} {s'} next e v = record {
  valid =
      quiet-IsTimed next (record (s'.tcbs next) { its = quantum }) refl (ground arith)
        (v.lists.level next) refl refl refl refl v;
  same = λ t. ground arith;
  slice = ground arith;
}

pub select-Selected :
    {moving : ℕ → Bool} {s : Sched} (current idle : ℕ)
    → is_queued (s.tcbs current) ≡ false
    → is_normal (s.tcbs idle).kind ≡ false
    → IsTimed moving s
    → Selected moving s (sched_queue_select current idle s)
unfolding sched_queue_select
select-Selected {moving} {s} current idle out lazy v =
    go (pop_highest-Popped priority_queues s v.lists)
  where
    go :
        {r : Option ℕ × Sched}
        → Popped moving priority_queues s r
        → Selected moving s (
            let next = or_else r.0 (if is_ready (r.1.tcbs current).state then current else idle) in
            (next, set_tcb next (record (r.1.tcbs next) { its = quantum }) r.1))
    go (empty all) = elim (Bool-cases (is_ready (s.tcbs current).state)) [
      | inl r ↦ rw r (
          its-Selected current refl (record {
            lists = also-IsScheduled current out (ground arith) v.lists;
            order = v.order;
          }))
      | inr r ↦ rw r (
          its-Selected idle refl (record {
            lists = also-IsScheduled idle (ground arith) (v.lists.idle idle lazy) v.lists;
            order = v.order;
          }))
    ]
    go (popped t c rest h e all w) = its-Selected t refl (record { lists = w; order = v.order })

cases_lt : (m n : ℕ) → (m < n) ⊎ (n ≤ m)
cases_lt m n = ground arith

-- Where the scheduler's lists are right and some thread waits in a queue, `sched_queue_select`
-- chooses a thread whose priority is no lower than that of any waiting thread, and which is the
-- head of the queue of its priority.
pub select_highest :
    {moving : ℕ → Bool} {s : Sched} (current idle t : ℕ)
    → IsTimed moving s
    → is_queued (s.tcbs t) ≡ true
    → moving t ≡ false
    → let next = (sched_queue_select current idle s).0 in
      ((s.tcbs t).priority ≤ (s.tcbs next).priority)
      × ((rest : List ℕ) × (s.queues (s.tcbs next).priority ≡ next ∷ rest))
unfolding sched_queue_select
select_highest {moving} {s} current idle t v waits stays =
    go (pop_highest-Popped priority_queues s v.lists)
  where
    go :
        {r : Option ℕ × Sched}
        → Popped moving priority_queues s r
        → let next = or_else r.0 (if is_ready (r.1.tcbs current).state then current else idle) in
          ((s.tcbs t).priority ≤ (s.tcbs next).priority)
          × ((rest : List ℕ) × (s.queues (s.tcbs next).priority ≡ next ∷ rest))
    go (empty all) =
        let none_there = all (s.tcbs t).priority (v.lists.level t) in
        let there = v.lists.queue t (s.tcbs t).priority in
        absurd (ground (arith, there, ap (count t) none_there, waits, stays))
    go (popped u c rest h e all w) =
        let one : 1 ≤ count u (s.queues c) = rw e (ground arith) in
        let at : (s.tcbs u).priority ≡ c = ground (arith, v.lists.queue u c, one) in
        let there : count t (s.queues (s.tcbs t).priority) ≡ 1 =
          ground (arith, v.lists.queue t (s.tcbs t).priority, waits, stays) in
        let below : (s.tcbs t).priority ≤ c = elim (cases_lt c (s.tcbs t).priority) [
          | inl a ↦
              absurd
                (ground (arith, there, ap (count t) (all (s.tcbs t).priority a (v.lists.level t))))
          | inr b ↦ b
        ] in
        (ground (arith, at, below), (rest, rw at e))
