-- ===== src/Sched/Tests.antt =====
-- kernel_sched.c with an idle thread 0, a running thread 1, a sleeper 2 that wakes up at 5, and a
-- waiting thread 3.
use tiny_os_project.Prelude.{
  ℕ, ◌≡◌, ◌≤◌, ◌==◌, refl, arith, Bool, true, false, inl, inr, List, [], ◌∷◌, some, if◌then◌else◌,
}
use tiny_os_project.Sched.{
  Tcb, Ccb, Sched, idle_thread, normal_thread, ctx_clean, ctx_dirty, ready, running, stopped,
  exited, sched_pipe, sched_quantum, no_timeout, is_blocked, wakeup, sleep_releasing,
  sched_queue_select, wake_loop, yield, gain,
}
use tiny_os_project.Sched.Queues.{IsScheduled, without, wakeup-IsScheduled}
use tiny_os_project.Sched.Timeouts.{IsTimed, sleep_releasing-IsTimed}
use tiny_os_project.Sched.Wake.{Woken, wake_loop-Woken}
use tiny_os_project.Sched.Switch.{select_highest}
use tiny_os_project.Sched.Yield.{IsRunning, IsSwitching, yield-IsSwitching}
use tiny_os_project.Sched.Gain.{gain-IsRunning}

abbrev threads : ℕ → Tcb
threads t = record {
  owner_pcb = 0;
  kind = if t == 0 then idle_thread else normal_thread;
  state =
      if t == 0
      then ready
      else if t == 1
      then running
      else if t == 2
      then stopped
      else if t == 3
      then ready
      else exited;
  phase = if t == 1 then ctx_dirty else ctx_clean;
  wakeup_time = if t == 2 then 5 else no_timeout;
  its = 0;
  rts = 0;
  curr_cause = sched_quantum;
  last_cause = sched_quantum;
  priority = if t == 3 then 2 else 1;
}

abbrev pub three : Sched
three = record {
  tcbs = threads;
  queues = λ p. if p == 2 then 3 ∷ [] else [];
  timeout_list = 2 ∷ [];
  yield_counter = 0;
  active_threads = 3;
}

abbrev pub nobody : ℕ → Bool
nobody t = false

abbrev pub core_1 : Ccb
core_1 = record { current_thread = 1; previous_thread = 0; idle = 0 }

pub three-IsTimed : IsTimed nobody three
three-IsTimed = record {
  lists = record {
    queue = λ t p. ground arith;
    level = λ t. ground arith;
    timeout = λ t. ground arith;
    asleep = λ t. ground arith;
    awake = λ t m. ground arith;
    idle = λ t m. ground arith;
  };
  order = ground arith;
}

core_1-IsRunning : IsRunning nobody core_1 three
core_1-IsRunning = record { dirty = refl; begun = λ e. ground arith; still = refl; lazy = refl }

wakeup-IsScheduled_example :
    IsScheduled nobody (wakeup 2 three).1
    × ((wakeup 2 three).0 ≡ true)
    × (is_blocked ((wakeup 2 three).1.tcbs 2).state ≡ false)
wakeup-IsScheduled_example = wakeup-IsScheduled 2 three-IsTimed.lists

sleep_releasing-IsTimed_example : IsTimed nobody (sleep_releasing stopped 7 100 core_1 three)
sleep_releasing-IsTimed_example =
    sleep_releasing-IsTimed stopped 7 100 core_1 (inl refl) (inr (omega arith)) refl refl refl
      three-IsTimed

wake_loop-Woken_example : (s' : Sched) × (wake_loop 2 9 three ≡ some s') × Woken nobody 9 three s'
wake_loop-Woken_example = wake_loop-Woken 2 9 three (omega arith) three-IsTimed

select_highest_example :
    let next = (sched_queue_select 1 0 three).0 in
    ((three.tcbs 3).priority ≤ (three.tcbs next).priority)
    × ((rest : List ℕ) × (three.queues (three.tcbs next).priority ≡ next ∷ rest))
select_highest_example = select_highest 1 0 3 three-IsTimed refl refl

yield-IsSwitching_example :
    (core' : Ccb) × (s' : Sched) × (yield 2 40 9 sched_pipe core_1 three ≡ some (core', s'))
    × (core'.previous_thread ≡ 1)
    × IsSwitching nobody core' s'
yield-IsSwitching_example =
    yield-IsSwitching 2 40 9 sched_pipe three-IsTimed core_1-IsRunning (omega arith)

-- The thread 3 is on its way from the queue, and the thread 1 has stopped.
abbrev leaving : ℕ → Tcb
leaving t = record (threads t) {
  state =
      if t == 0
      then ready
      else if t == 1
      then stopped
      else if t == 2
      then stopped
      else if t == 3
      then ready
      else exited;
}

abbrev between : Sched
between = record three { tcbs = leaving; queues = λ p. [] }

abbrev core_3 : Ccb
core_3 = record { current_thread = 3; previous_thread = 1; idle = 0 }

between-IsSwitching : IsSwitching nobody core_3 between
between-IsSwitching = record {
  lists = record {
    lists = record {
      queue = λ t p. ground arith;
      level = λ t. ground arith;
      timeout = λ t. ground arith;
      asleep = λ t. ground arith;
      awake = λ t m. ground arith;
      idle = λ t m. ground arith;
    };
    order = ground arith;
  };
  dirty = refl;
  settled = λ e. ground arith;
  begun = λ e. ground arith;
  still = refl;
  lazy = refl;
}

gain-IsRunning_example :
    (s' : Sched) × (gain core_3 between ≡ some s')
    × IsTimed (without 3 nobody) s'
    × IsRunning (without 3 nobody) core_3 s'
    × ((s'.tcbs 3).state ≡ running)
    × ((s'.tcbs 1).phase ≡ ctx_clean)
gain-IsRunning_example = gain-IsRunning between-IsSwitching
