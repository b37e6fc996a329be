-- ===== src/Sched/Yield.antt =====
-- `yield` up to the exchange of contexts.
use tiny_os_project.Prelude.{
  ℕ, zero, suc, ◌+◌, ◌<◌, ◌≡◌, ◌≢◌, refl, inl, inr, Bool, false, some, [], ◌∷◌, ◌++◌, ◌==◌, update,
  arith, List-cases, Bool-cases, length, ap,
}
use tiny_os_project.Sched.{
  Tcb, Ccb, Sched, SchedCause, ctx_dirty, running, init, priority_queues, set_tcb, is_normal,
  sched_queue_select, aging_loop, aging, count_yield, max_quantums, wake_loop, new_priority,
  stop_running, yield,
}
use tiny_os_project.Sched.Queues.{also, count_yield-IsScheduled}
use tiny_os_project.Sched.Timeouts.{Ordered-congr, IsTimed}
use tiny_os_project.Sched.Wake.{Woken, wake_loop-Woken}
use tiny_os_project.Sched.Switch.{quiet-IsTimed, select-Selected}

-- The boost changes no thread but in its priority, and no timeout.
record SameThreads (s s' : Sched) : Type 0 where
  timeouts : s'.timeout_list ≡ s.timeout_list
  threads : (t : ℕ) → s'.tcbs t ≡ record (s.tcbs t) { priority = (s'.tcbs t).priority }

aging_loop-SameThreads : (count : ℕ) (s : Sched) → SameThreads s (aging_loop count s)
unfolding aging_loop
aging_loop-SameThreads zero s = record { timeouts = refl; threads = λ t. refl }
aging_loop-SameThreads (suc c) s = elim (List-cases (s.queues c)) [
  | inl e ↦ rw (e, aging_loop) (aging_loop-SameThreads c s)
  | inr (t, rest, e) ↦
      rw (e, aging_loop)
        (let s1 = record s { queues = update s.queues c rest } in
          let s2 = set_tcb t (record (s1.tcbs t) { priority = (s1.tcbs t).priority + 1 }) s1 in
          let s3 = record s2 { queues = update s2.queues (suc c) (s2.queues (suc c) ++ t ∷ []) } in
          let r = aging_loop-SameThreads c s3 in
          record { timeouts = r.timeouts; threads = λ u. ground (arith, r.threads u) })
]

count_yield-SameThreads : (s : Sched) → SameThreads s (count_yield s)
unfolding count_yield aging
count_yield-SameThreads s =
    let s1 : Sched = record s { yield_counter = s.yield_counter + 1 } in
    let r = aging_loop-SameThreads 4 s1 in
    elim (Bool-cases (s.yield_counter + 1 == max_quantums)) [
      | inl full ↦ rw full (record { timeouts = r.timeouts; threads = r.threads })
      | inr more ↦ rw more (record { timeouts = refl; threads = λ t. refl })
    ]

count_yield-IsTimed :
    {moving : ℕ → Bool} (s : Sched) → IsTimed moving s → IsTimed moving (count_yield s)
count_yield-IsTimed s v =
    let r = count_yield-SameThreads s in
    record {
      lists = count_yield-IsScheduled s v.lists;
      order = rw r.timeouts (
          Ordered-congr s.tcbs (count_yield s).tcbs 0 s.timeout_list
            (λ t i. ap (λ (x : Tcb). x.wakeup_time) (r.threads t)) v.order);
    }

new_priority_bound :
    (cause : SchedCause) (x : Tcb)
    → x.priority < priority_queues
    → new_priority cause x < priority_queues
unfolding new_priority
new_priority_bound cause x h = ground arith

-- A core that runs a thread: its context is dirty, it is not blocked in INIT, no other core is about to
-- run it, and the core has an idle thread.
pub record IsRunning (moving : ℕ → Bool) (core : Ccb) (s : Sched) : Type 0 where
  pub dirty : (s.tcbs core.current_thread).phase ≡ ctx_dirty
  pub begun : (s.tcbs core.current_thread).state ≢ init
  pub still : moving core.current_thread ≡ false
  pub lazy : is_normal (s.tcbs core.idle).kind ≡ false

-- A core between `yield` and `gain`: the next thread is on its way, and the one that ran before is
-- still dirty, and in a state that `gain` accepts.
pub record IsSwitching (moving : ℕ → Bool) (core : Ccb) (s : Sched) : Type 0 where
  pub lists : IsTimed (also core.current_thread moving) s
  pub dirty : (s.tcbs core.previous_thread).phase ≡ ctx_dirty
  pub settled : (s.tcbs core.previous_thread).state ≢ running
  pub begun : (s.tcbs core.previous_thread).state ≢ init
  pub still : moving core.previous_thread ≡ false
  pub lazy : is_normal (s.tcbs core.idle).kind ≡ false

-- The current thread as `yield` leaves it before it wakes anybody up, and after the selection.
abbrev ending : (remaining : ℕ) → SchedCause → Tcb → Tcb
ending remaining cause x = record x {
  state = stop_running x.state;
  rts = remaining;
  last_cause = x.curr_cause;
  curr_cause = cause;
}

abbrev moved : SchedCause → Tcb → Tcb
moved cause x = record x { priority = new_priority cause x }

module _ {moving : ℕ → Bool} {core : Ccb} {s : Sched} (remaining : ℕ) (cause : SchedCause)
    (v : IsTimed moving s) (r : IsRunning moving core s) where
  open core use {current_thread}

  abbrev ended : Sched
  ended =
      set_tcb current_thread (ending remaining cause ((count_yield s).tcbs current_thread))
        (count_yield s)

  counted :
      (count_yield s).tcbs current_thread
      ≡ record (s.tcbs current_thread) { priority = ((count_yield s).tcbs current_thread).priority }
  counted = (count_yield-SameThreads s).threads current_thread

  ended-IsTimed : IsTimed moving ended
  ended-IsTimed =
      let v1 = count_yield-IsTimed s v in
      quiet-IsTimed current_thread (ending remaining cause ((count_yield s).tcbs current_thread))
        (ground (arith, counted, r.dirty)) (ground (arith, counted, r.dirty))
        (v1.lists.level current_thread) refl (ground arith) (ground arith) refl v1

  -- The selection and the change of priority, from the state after the wakeups.
  selected-IsSwitching :
      {s3 : Sched} (now : ℕ)
      → Woken moving now ended s3
      → let (next, s4) = sched_queue_select current_thread core.idle s3 in
        IsSwitching moving
          (record core { previous_thread = current_thread; current_thread = next })
          (set_tcb current_thread (moved cause (s4.tcbs current_thread)) s4)
  selected-IsSwitching {s3} now w =
      let dirty3 : (s3.tcbs current_thread).phase ≡ ctx_dirty =
        ground (arith, w.phases current_thread, counted, r.dirty) in
      let lazy1 = (count_yield-SameThreads s).threads core.idle in
      let lazy3 : is_normal (s3.tcbs core.idle).kind ≡ false =
        ground (arith, w.kinds core.idle, lazy1, r.lazy) in
      let sel = select-Selected current_thread core.idle (ground (arith, dirty3)) lazy3 w.valid in
      let s4 = (sched_queue_select current_thread core.idle s3).1 in
      let kept = sel.same current_thread in
      let lazy4 = sel.same core.idle in
      let state3 = w.states current_thread in
      let done3 : (s3.tcbs current_thread).state ≢ running = λ q. ground (arith, state3) in
      let begun3 : (s3.tcbs current_thread).state ≢ init =
        λ q. ground (arith, state3, counted, r.begun) in
      record {
        lists =
            quiet-IsTimed current_thread (moved cause (s4.tcbs current_thread)) refl
              (ground (arith, kept, dirty3))
              (new_priority_bound cause (s4.tcbs current_thread)
                (sel.valid.lists.level current_thread))
              refl refl refl refl sel.valid;
        dirty = ground (arith, kept, dirty3);
        settled = λ q. ground (arith, kept, done3);
        begun = λ q. ground (arith, kept, begun3);
        still = r.still;
        lazy = ground (arith, lazy4, lazy3);
      }

yield-run :
    (fuel remaining now : ℕ) (cause : SchedCause) (core : Ccb) (s s3 : Sched)
    → wake_loop fuel now (
        set_tcb core.current_thread
          (ending remaining cause ((count_yield s).tcbs core.current_thread))
          (count_yield s))
      ≡ some s3
    → yield fuel remaining now cause core s ≡ (
        let (next, s4) = sched_queue_select core.current_thread core.idle s3 in
        some (
          record core { previous_thread = core.current_thread; current_thread = next },
          set_tcb core.current_thread (moved cause (s4.tcbs core.current_thread)) s4,
        ))
unfolding yield
yield-run fuel remaining now cause core s s3 e = rw (e, yield) refl

module _ {moving : ℕ → Bool} {core : Ccb} {s : Sched} (fuel remaining now : ℕ)
    (cause : SchedCause) where
  -- For every cause, a call of `yield` on a core that runs a thread, from a state whose queues and
  -- timeout list are right, reaches its exchange of contexts, given a round of the wakeup loop for
  -- each sleeping thread and one more; then the lists are right with the chosen thread on its way,
  -- and the thread that ran before is the core's previous thread, dirty, and in a state that `gain`
  -- accepts.
  pub yield-IsSwitching :
      IsTimed moving s
      → IsRunning moving core s
      → length s.timeout_list < fuel
      → (core' : Ccb) × (s' : Sched) × (yield fuel remaining now cause core s ≡ some (core', s'))
        × (core'.previous_thread ≡ core.current_thread)
        × IsSwitching moving core' s'
  yield-IsSwitching v r enough =
      let same = count_yield-SameThreads s in
      let (s3, run, w) =
        wake_loop-Woken fuel now (ended remaining cause v r) (ground (arith, same.timeouts))
          (ended-IsTimed remaining cause v r) in
      let next = sched_queue_select core.current_thread core.idle s3 in
      (
        record core { previous_thread = core.current_thread; current_thread = next.0 },
        set_tcb core.current_thread (moved cause (next.1.tcbs core.current_thread)) next.1,
        yield-run fuel remaining now cause core s s3 run,
        refl,
        selected-IsSwitching remaining cause v r now w,
      )
