-- ===== src/Sched/Gain.antt =====
-- `gain`, which starts the time slice of the thread that `yield` has chosen.
use tiny_os_project.Prelude.{
  ℕ, ◌≡◌, ◌≢◌, refl, Bool, true, false, ◌&&◌, some, [], ◌∷◌, ◌==◌, if◌then◌else◌, arith,
  count-append, ◌∙◌, ℕ_discrete,
}
use tiny_os_project.Sched.{
  Ccb, Sched, ThreadState, ThreadType, idle_thread, normal_thread, ctx_clean, ctx_dirty, init,
  ready, running, stopped, exited, set_tcb, is_ready, is_normal, sched_queue_add, release_tcb,
  settle, gain,
}
use tiny_os_project.Sched.Queues.{also, without}
use tiny_os_project.Sched.Timeouts.{Ordered-congr, IsTimed}
use tiny_os_project.Sched.Yield.{IsRunning, IsSwitching}

-- The state of the core's thread as its time slice starts.
abbrev begin_slice : ℕ → Sched → Sched
begin_slice t s =
    set_tcb t (record (s.tcbs t) { state = running; phase = ctx_dirty; rts = (s.tcbs t).its }) s

begin_slice-IsTimed :
    (moving : ℕ → Bool) {s : Sched} (t : ℕ)
    → IsTimed (also t moving) s
    → IsTimed (without t moving) (begin_slice t s)
begin_slice-IsTimed moving {s} t v = record {
  lists = record {
    queue = λ u p. ground (arith, v.lists.queue u p);
    level = λ u. ground (arith, v.lists.level u, v.lists.level t);
    timeout = λ u. ground (arith, v.lists.timeout u);
    asleep = λ u. ground (arith, v.lists.asleep u, v.lists.awake t);
    awake = λ u m. ground (arith, v.lists.awake u);
    idle = λ u m. ground (arith, v.lists.idle u);
  };
  order =
      Ordered-congr s.tcbs (begin_slice t s).tcbs 0 s.timeout_list (λ u i. ground arith) v.order;
}

-- The thread that ran before, with its context saved.
abbrev end_slice : ℕ → Sched → Sched
end_slice t s = set_tcb t (record (s.tcbs t) { phase = ctx_clean }) s

-- It stays out of the queues, unless it is READY and no idle thread.
end_slice-IsTimed :
    {moving : ℕ → Bool} {s : Sched} (t : ℕ)
    → (s.tcbs t).phase ≡ ctx_dirty
    → is_ready (s.tcbs t).state && is_normal (s.tcbs t).kind ≡ false
    → IsTimed moving s
    → IsTimed moving (end_slice t s)
end_slice-IsTimed {moving} {s} t d q v = record {
  lists = record {
    queue = λ u p. ground (arith, v.lists.queue u p);
    level = λ u. ground (arith, v.lists.level u, v.lists.level t);
    timeout = λ u. ground (arith, v.lists.timeout u);
    asleep = λ u. ground (arith, v.lists.asleep u);
    awake = λ u m. ground (arith, v.lists.awake u);
    idle = λ u m. ground (arith, v.lists.idle u);
  };
  order = Ordered-congr s.tcbs (end_slice t s).tcbs 0 s.timeout_list (λ u i. ground arith) v.order;
}

requeue-IsTimed :
    {moving : ℕ → Bool} {s : Sched} (t : ℕ)
    → (s.tcbs t).phase ≡ ctx_dirty
    → is_ready (s.tcbs t).state ≡ true
    → is_normal (s.tcbs t).kind ≡ true
    → moving t ≡ false
    → IsTimed moving s
    → IsTimed moving (sched_queue_add t (end_slice t s))
requeue-IsTimed {moving} {s} t d r n m v = record {
  lists = record {
    queue = λ u p.
        ground (arith, v.lists.queue u p, v.lists.queue t p, count-append u (s.queues p) (t ∷ []));
    level = λ u. ground (arith, v.lists.level u, v.lists.level t);
    timeout = λ u. ground (arith, v.lists.timeout u);
    asleep = λ u. ground (arith, v.lists.asleep u);
    awake = λ u m. ground (arith, v.lists.awake u);
    idle = λ u m. ground (arith, v.lists.idle u);
  };
  order = Ordered-congr s.tcbs (end_slice t s).tcbs 0 s.timeout_list (λ u i. ground arith) v.order;
}

module _ {moving : ℕ → Bool} {s : Sched} (prev : ℕ) (d : (s.tcbs prev).phase ≡ ctx_dirty)
    (m : moving prev ≡ false) (v : IsTimed moving s) where
  -- The assertion of the switch on the state cannot fail for a thread that `yield` has left.
  settle-IsTimed :
      (state : ThreadState) (kind : ThreadType)
      → (s.tcbs prev).state ≡ state
      → (s.tcbs prev).kind ≡ kind
      → state ≢ running
      → state ≢ init
      → (s' : Sched) × (settle state kind prev (end_slice prev s) ≡ some s')
        × IsTimed moving s'
        × (s'.tcbs ≡ (end_slice prev s).tcbs)
  settle-IsTimed ready normal_thread e k h b = (
    sched_queue_add prev (end_slice prev s),
    refl,
    requeue-IsTimed prev d (ground (arith, e)) (ground (arith, k)) m v,
    refl,
  )
  settle-IsTimed ready idle_thread e k h b =
      (end_slice prev s, refl, end_slice-IsTimed prev d (ground (arith, e, k)) v, refl)
  settle-IsTimed exited k0 e k h b =
      let w = end_slice-IsTimed prev d (ground (arith, e, k)) v in
      (
        release_tcb (end_slice prev s),
        refl,
        record {
          lists = record {
            queue = w.lists.queue;
            level = w.lists.level;
            timeout = w.lists.timeout;
            asleep = w.lists.asleep;
            awake = w.lists.awake;
            idle = w.lists.idle;
          };
          order = w.order;
        },
        refl,
      )
  settle-IsTimed stopped k0 e k h b =
      (end_slice prev s, refl, end_slice-IsTimed prev d (ground (arith, e, k)) v, refl)
  settle-IsTimed running k0 e k h b = absurd (h refl)
  settle-IsTimed init k0 e k h b = absurd (b refl)

gain-same :
    (core : Ccb) (s : Sched)
    → core.current_thread ≡ core.previous_thread
    → gain core s ≡ some (begin_slice core.current_thread s)
unfolding gain
gain-same core s e = ground (arith, e)

gain-other :
    (core : Ccb) (s : Sched)
    → core.current_thread ≢ core.previous_thread
    → let s1 = begin_slice core.current_thread s in
      gain core s
      ≡ settle
          (s1.tcbs core.previous_thread).state
          (s1.tcbs core.previous_thread).kind
          core.previous_thread
          (end_slice core.previous_thread s1)
unfolding gain
gain-other core s n = ground (arith, n)

-- On a core between `yield` and its `gain`, `gain` never meets its failed assertion; it keeps the
-- scheduler's lists right, the chosen thread is RUNNING and no longer on its way, the core is again
-- as `yield` wants it, and the context of the previous thread is clean unless it is the same
-- thread.
pub gain-IsRunning :
    {moving : ℕ → Bool} {core : Ccb} {s : Sched}
    → IsSwitching moving core s
    → (s' : Sched) × (gain core s ≡ some s')
      × IsTimed (without core.current_thread moving) s'
      × IsRunning (without core.current_thread moving) core s'
      × ((s'.tcbs core.current_thread).state ≡ running)
      × ((s'.tcbs core.previous_thread).phase
          ≡ (if core.previous_thread == core.current_thread then ctx_dirty else ctx_clean))
gain-IsRunning {moving} {core} {s} w =
    let c = core.current_thread in
    let p = core.previous_thread in
    let s1 = begin_slice c s in
    let v1 = begin_slice-IsTimed moving c w.lists in
    elim (ℕ_discrete c p) [
      | yes e ↦ (
        s1,
        gain-same core s e,
        v1,
        record {
          dirty = ground arith;
          begun = λ q. ground arith;
          still = ground arith;
          lazy = ground (arith, w.lazy);
        },
        ground arith,
        ground (arith, e),
      )
      | no n ↦
          let (s', run, v', t) =
            settle-IsTimed {s = s1} p (ground (arith, n, w.dirty)) (ground (arith, n, w.still)) v1
              (s1.tcbs p).state (s1.tcbs p).kind refl refl (λ q. ground (arith, n, q, w.settled))
              (λ q. ground (arith, n, q, w.begun)) in
          let runs : (s'.tcbs c).state ≡ running = rw t (ground (arith, n)) in
          (
            s',
            gain-other core s n ∙ run,
            v',
            record {
              dirty = rw t (ground (arith, n));
              begun = λ q. ground (arith, runs, q);
              still = ground arith;
              lazy = rw t (ground (arith, n, w.lazy));
            },
            runs,
            rw t (ground (arith, n)),
          )
    ]
