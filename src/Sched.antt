-- ===== src/Sched.antt =====
-- kernel_sched.c and the types of kernel_sched.h. A `TCB *` is the address of the thread's block. The
-- intrusive lists through `sched_node` are lists of addresses. The state is what
-- `sched_spinlock` protects; each function below runs while that lock is held, so its steps are atomic.
pub mod Queues
pub mod Switch
pub mod Timeouts
pub mod Gain
pub mod Wake
pub mod Yield
pub mod Tests
use tiny_os_project.Prelude.{
  ℕ, zero, suc, ◌+◌, ◌-◌, ◌%◌, ◌^◌, ◌/◌, Bool, true, false, not, ◌&&◌, ◌||◌, Option, none, some,
  List, [], ◌∷◌, ◌++◌, ltb, leb, ◌==◌, if◌then◌else◌, update,
}

pub data ThreadState : Type 0 where
  init ready running stopped exited : ThreadState

pub data ThreadPhase : Type 0 where
  ctx_clean ctx_dirty : ThreadPhase

pub data ThreadType : Type 0 where
  idle_thread normal_thread : ThreadType

pub data SchedCause : Type 0 where
  sched_quantum sched_io sched_mutex sched_pipe sched_poll sched_idle sched_user : SchedCause

-- `thread_control_block`, less the machine context, the start function and the list node.
pub record Tcb : Type 0 where
  pub owner_pcb : ℕ
  pub kind : ThreadType
  pub state : ThreadState
  pub phase : ThreadPhase
  pub wakeup_time : ℕ
  pub its : ℕ
  pub rts : ℕ
  pub curr_cause : SchedCause
  pub last_cause : SchedCause
  pub priority : ℕ

-- `core_control_block`: the idle thread has an address too.
pub record Ccb : Type 0 where
  pub current_thread : ℕ
  pub previous_thread : ℕ
  pub idle : ℕ

pub record Sched : Type 0 where
  pub tcbs : ℕ → Tcb
  pub queues : ℕ → List ℕ
  pub timeout_list : List ℕ
  pub yield_counter : ℕ
  pub active_threads : ℕ

abbrev pub max_quantums : ℕ
max_quantums = 500

abbrev pub priority_queues : ℕ
priority_queues = 5

abbrev pub quantum : ℕ
quantum = 10000

-- `(TimerDuration)-1`, a `uint64_t`.
abbrev pub no_timeout : ℕ
no_timeout = 2 ^ 64 - 1

abbrev pub set_tcb : ℕ → Tcb → Sched → Sched
set_tcb t v s = record s { tcbs = update s.tcbs t v }

-- `STOPPED` or `INIT`: blocked.
abbrev pub is_blocked : ThreadState → Bool
is_blocked stopped = true
is_blocked init = true
is_blocked _ = false

abbrev pub is_ready : ThreadState → Bool
is_ready ready = true
is_ready _ = false

abbrev pub is_exited : ThreadState → Bool
is_exited exited = true
is_exited _ = false

abbrev pub is_clean : ThreadPhase → Bool
is_clean ctx_clean = true
is_clean ctx_dirty = false

abbrev pub is_normal : ThreadType → Bool
is_normal normal_thread = true
is_normal idle_thread = false

-- The number of an enumerator of `SCHED_CAUSE`.
abbrev pub cause_no : SchedCause → ℕ
cause_no sched_quantum = 0
cause_no sched_io = 1
cause_no sched_mutex = 2
cause_no sched_pipe = 3
cause_no sched_poll = 4
cause_no sched_idle = 5
cause_no sched_user = 6

-- The new TCB at the address `t` that `allocate_thread` returns.
pub spawn_thread : ℕ → ℕ → Sched → Sched
spawn_thread t pcb s =
    let s' =
      set_tcb t
        (record {
          owner_pcb = pcb;
          kind = normal_thread;
          state = init;
          phase = ctx_clean;
          wakeup_time = no_timeout;
          its = quantum;
          rts = quantum;
          curr_cause = sched_idle;
          last_cause = sched_idle;
          priority = priority_queues / 2;
        })
        s in
    record s' { active_threads = (s'.active_threads + 1) % 2 ^ 32 }

-- The block of an exited thread is freed; only the count of threads is part of the state.
abbrev pub release_tcb : Sched → Sched
release_tcb s = record s { active_threads = (s.active_threads + (2 ^ 32 - 1)) % 2 ^ 32 }

-- The walk of `sched_register_timeout` to the first thread that wakes up later, and the splice.
pub insert_timeout : (ℕ → Tcb) → ℕ → List ℕ → List ℕ
insert_timeout tcbs t [] = t ∷ []
insert_timeout tcbs t (n ∷ l) =
    if ltb (tcbs t).wakeup_time (tcbs n).wakeup_time then t ∷ n ∷ l else n ∷ insert_timeout tcbs t l

-- `now` is `bios_clock()`.
pub sched_register_timeout : (t timeout now : ℕ) → Sched → Sched
unfolding insert_timeout
sched_register_timeout t timeout now s =
    if timeout == no_timeout
    then s
    else let s' = set_tcb t (record (s.tcbs t) { wakeup_time = (now + timeout) % 2 ^ 64 }) s in
      record s' { timeout_list = insert_timeout s'.tcbs t s'.timeout_list }

abbrev pub sched_queue_add : ℕ → Sched → Sched
sched_queue_add t s =
    let p = (s.tcbs t).priority in record s { queues = update s.queues p (s.queues p ++ t ∷ []) }

-- `rlist_remove` of a thread's node.
pub remove : ℕ → List ℕ → List ℕ
remove t [] = []
remove t (n ∷ l) = if t == n then l else n ∷ remove t l

abbrev pub clear_timeout : ℕ → Sched → Sched
clear_timeout t s = record s {
  timeout_list = remove t s.timeout_list;
  tcbs = update s.tcbs t (record (s.tcbs t) { wakeup_time = no_timeout });
}

-- Its assertions are the conditions under which it is called.
pub sched_make_ready : ℕ → Sched → Sched
unfolding remove
sched_make_ready t s =
    let s1 = if (s.tcbs t).wakeup_time == no_timeout then s else clear_timeout t s in
    let s2 = set_tcb t (record (s1.tcbs t) { state = ready }) s1 in
    if is_clean (s2.tcbs t).phase then sched_queue_add t s2 else s2

-- The loop of `sched_wakeup_expired_timeouts`, on fuel. `none`: the fuel ran out.
pub wake_loop : (fuel now : ℕ) → Sched → Option Sched
wake_loop zero now s = none
wake_loop (suc fuel) now s = elim s.timeout_list [
  | [] ↦ some s
  | t ∷ _ ↦ elim (ltb now (s.tcbs t).wakeup_time) [
    | true ↦ some s
    | false ↦ wake_loop fuel now (sched_make_ready t s)
  ]
]

-- The loop of `sched_queue_select` over the queues below `counter`, from the highest down.
pub pop_highest : (counter : ℕ) → Sched → Option ℕ × Sched
pop_highest zero s = (none, s)
pop_highest (suc counter) s = elim (s.queues counter) [
  | [] ↦ pop_highest counter s
  | t ∷ rest ↦ (some t, record s { queues = update s.queues counter rest })
]

-- The thread that runs next.
abbrev pub or_else : Option ℕ → ℕ → ℕ
or_else none t = t
or_else (some u) t = u

pub sched_queue_select : (current idle : ℕ) → Sched → ℕ × Sched
unfolding pop_highest
sched_queue_select current idle s =
    let (sel, s') = pop_highest priority_queues s in
    let next = or_else sel (if is_ready (s'.tcbs current).state then current else idle) in
    (next, set_tcb next (record (s'.tcbs next) { its = quantum }) s')

-- The result says whether the thread was blocked.
pub wakeup : ℕ → Sched → Bool × Sched
unfolding sched_make_ready
wakeup t s = if is_blocked (s.tcbs t).state then (true, sched_make_ready t s) else (false, s)

-- `sleep_releasing` up to its call of `yield`; the mutex that it releases is the caller's.
pub sleep_releasing : ThreadState → (timeout now : ℕ) → Ccb → Sched → Sched
unfolding sched_register_timeout
sleep_releasing state timeout now core s =
    let t = core.current_thread in
    let s' = set_tcb t (record (s.tcbs t) { state = state }) s in
    if is_exited state then s' else sched_register_timeout t timeout now s'

-- The loop of `aging` over the queues below `count`, from the highest down.
pub aging_loop : (count : ℕ) → Sched → Sched
aging_loop zero s = s
aging_loop (suc count) s = elim (s.queues count) [
  | [] ↦ aging_loop count s
  | t ∷ rest ↦
      let s1 = record s { queues = update s.queues count rest } in
      let s2 = set_tcb t (record (s1.tcbs t) { priority = (s1.tcbs t).priority + 1 }) s1 in
      aging_loop count
        (record s2 { queues = update s2.queues (suc count) (s2.queues (suc count) ++ t ∷ []) })
]

pub aging : Sched → Sched
unfolding aging_loop
aging s = aging_loop (priority_queues - 1) s

-- `yield_counter` and the boost that it triggers.
pub count_yield : Sched → Sched
count_yield s =
    let s1 = record s { yield_counter = s.yield_counter + 1 } in
    if s1.yield_counter == max_quantums then record (aging s1) { yield_counter = 0 } else s1

-- The switch of `yield` on the cause, after `last_cause` and `curr_cause` were updated.
pub new_priority : SchedCause → Tcb → ℕ
new_priority sched_quantum t = if ltb 0 t.priority then t.priority - 1 else t.priority
new_priority sched_io t =
    if ltb t.priority (priority_queues - 1) then t.priority + 1 else t.priority
new_priority sched_mutex t =
    if ltb 0 t.priority && cause_no t.curr_cause == cause_no t.last_cause
    then t.priority - 1
    else t.priority
new_priority _ t = t.priority

abbrev pub stop_running : ThreadState → ThreadState
stop_running running = ready
stop_running s = s

-- `yield` up to the switch of contexts; `remaining` is `bios_cancel_timer()`.
pub yield : (fuel remaining now : ℕ) → SchedCause → Ccb → Sched → Option (Ccb × Sched)
yield fuel remaining now cause core s =
    let current = core.current_thread in
    let s1 = count_yield s in
    let cur = s1.tcbs current in
    let s2 =
      set_tcb current
        (record cur {
          state = stop_running cur.state;
          rts = remaining;
          last_cause = cur.curr_cause;
          curr_cause = cause;
        })
        s1 in
    elim (wake_loop fuel now s2) [
      | none ↦ none
      | some s3 ↦
          let (next, s4) = sched_queue_select current core.idle s3 in
          let cur' = s4.tcbs current in
          let s5 = set_tcb current (record cur' { priority = new_priority cause cur' }) s4 in
          some (record core { previous_thread = current; current_thread = next }, s5)
    ]

-- What `gain` does with the thread that ran before; `none` for the failed assertion.
abbrev pub settle : ThreadState → ThreadType → ℕ → Sched → Option Sched
settle ready normal_thread prev s = some (sched_queue_add prev s)
settle ready idle_thread prev s = some s
settle exited kind prev s = some (release_tcb s)
settle stopped kind prev s = some s
settle _ kind prev s = none

-- `gain`, at the start of a time slice.
pub gain : Ccb → Sched → Option Sched
gain core s =
    let current = core.current_thread in
    let cur = s.tcbs current in
    let s1 = set_tcb current (record cur { state = running; phase = ctx_dirty; rts = cur.its }) s in
    let prev = core.previous_thread in
    if current == prev
    then some s1
    else let s2 = set_tcb prev (record (s1.tcbs prev) { phase = ctx_clean }) s1 in
      settle (s2.tcbs prev).state (s2.tcbs prev).kind prev s2

-- The empty lists of `initialize_scheduler`; the global counters start at 0.
pub initialize_scheduler : (ℕ → Tcb) → Sched
initialize_scheduler tcbs = record {
  tcbs = tcbs;
  queues = λ p. [];
  timeout_list = [];
  yield_counter = 0;
  active_threads = 0;
}
