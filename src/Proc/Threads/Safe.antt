-- ===== src/Proc/Threads/Safe.antt =====
-- kernel_threads.c: the calls of the threads of one process, in any order.
use tiny_os_project.Prelude.{
  ℕ, ◌+◌, ◌≤◌, ◌≡◌, refl, inl, inr, ◌⊎◌, Bool, true, false, not, ◌&&◌, Option, none, some, List, [],
  ◌∷◌, ◌==◌, if◌then◌else◌, arith, count, count-append, Bool-cases, ℕ_discrete,
}
use tiny_os_project.Prelude.Int.{ℤ, pos, minus_one}
use tiny_os_project.Streams.{Driver}
use tiny_os_project.Proc.{Procs, decrement, is_zero}
use tiny_os_project.Proc.Exec.{sys_create_thread}
use tiny_os_project.Proc.Exit.{sys_thread_exit}
use tiny_os_project.Proc.Exit.Ending.{counted_down, early_lem}
use tiny_os_project.Proc.Threads.{
  holds, Joined, sleeps, returns, join_resume, sys_thread_join, sys_thread_detach,
}
use tiny_os_project.Proc.Threads.Counts.{
  IsCounted, more, fewer, holds-count, waiting, waiting-IsCounted, released, joined,
  joined-IsCounted,
}

abbrev pub is_asleep : {W : Type 0} → Joined W → Bool
is_asleep (sleeps s) = true
is_asleep (returns r v s) = false

abbrev pub state_of : {W : Type 0} → Joined W → Procs W
state_of (sleeps s) = s
state_of (returns r v s) = s

IsCounted-congr :
    {W : Type 0} {extra : ℕ → ℕ} {cur : ℕ} {j j' : ℕ → ℕ} {s : Procs W}
    → ((a : ℕ) → j' a ≡ j a)
    → IsCounted extra cur j s
    → IsCounted extra cur j' s
IsCounted-congr same v = record {
  once = v.once;
  held = λ a h. v.held a (ground (arith, same a, h));
  refs = λ a h. rw (same a) (v.refs a h);
}

module _ {W : Type 0} (cur tid : ℕ) where
  resume_cases :
      (e : Bool) (s : Procs W)
      → (join_resume cur tid e s ≡ sleeps s)
        ⊎ ((r : ℤ) × (v : Option ℤ) × (join_resume cur tid e s ≡ returns r v (joined cur tid s)))
  unfolding join_resume joined released
  resume_cases e s = elim (Bool-cases (not (s.ptcbs tid).exited && not (s.ptcbs tid).detached)) [
    | inl asleep ↦ inl (rw asleep refl)
    | inr awake ↦ elim (Bool-cases ((released cur tid s).ptcbs tid).detached) [
      | inl gone ↦ inr (minus_one, none, rw (awake, gone) refl)
      | inr stays ↦ inr (
        pos 0,
        if e then some ((released cur tid s).ptcbs tid).exitval else none,
        rw (awake, stays) refl,
      )
    ]
  ]

  join_cases :
      (self : ℕ) (e : Bool) (s : Procs W)
      → (sys_thread_join cur self tid e s ≡ returns minus_one none s)
        ⊎ ((1 ≤ count tid (s.pcbs cur).ptcb_list)
            × (sys_thread_join cur self tid e s ≡ join_resume cur tid e (waiting cur tid s)))
  unfolding sys_thread_join waiting
  join_cases self e s = elim (Bool-cases (tid == 0)) [
    | inl null ↦ inl (rw null refl)
    | inr n ↦ elim (Bool-cases (holds tid (s.pcbs cur).ptcb_list)) [
      | inr alien ↦ inl (rw (n, alien) refl)
      | inl mine ↦ elim (Bool-cases (tid == self)) [
        | inl own_id ↦ inl (rw (n, mine, own_id) refl)
        | inr other ↦ elim (Bool-cases (s.ptcbs tid).detached) [
          | inl off ↦ inl (rw (n, mine, other, off) refl)
          | inr on ↦ inr (holds-count tid (s.pcbs cur).ptcb_list mine, rw (n, mine, other, on) refl)
        ]
      ]
    ]
  ]

created_list :
    {W : Type 0} (cur : ℕ) (task : Option ℕ) (argl : ℤ) (args : Option (List ℕ)) (t new a : ℕ)
    (s : Procs W)
    → count a ((sys_create_thread cur task argl args t new s).1.pcbs cur).ptcb_list
      ≡ count a (s.pcbs cur).ptcb_list + (if a == new then 1 else 0)
unfolding sys_create_thread
created_list cur task argl args t new a s =
    ground (arith, count-append a (s.pcbs cur).ptcb_list (new ∷ []))

-- One call of a thread of the process `cur`, or the end of the sleep of one; `joiners` counts those
-- asleep in a join.
pub data Step {W : Type 0} (d : Driver W) (extra : ℕ → ℕ) (cur : ℕ)
    : (ℕ → ℕ) → Procs W → (ℕ → ℕ) → Procs W → Type 0 where
  joins :
      (j : ℕ → ℕ) (s : Procs W) (self tid : ℕ) (e : Bool)
      → Step d extra cur j s
          (if is_asleep (sys_thread_join cur self tid e s) then more j tid else j)
          (state_of (sys_thread_join cur self tid e s))
  wakes :
      (j : ℕ → ℕ) (s : Procs W) (tid : ℕ) (e : Bool)
      → 1 ≤ j tid
      → Step d extra cur j s
          (if is_asleep (join_resume cur tid e s) then j else fewer j tid)
          (state_of (join_resume cur tid e s))
  detaches :
      (j : ℕ → ℕ) (s : Procs W) (tid : ℕ) → Step d extra cur j s j (sys_thread_detach cur tid s).2
  creates :
      (j : ℕ → ℕ) (s : Procs W) (task : Option ℕ) (argl : ℤ) (args : Option (List ℕ)) (t new : ℕ)
      → extra new ≡ 0
      → count new (s.pcbs cur).ptcb_list ≡ 0
      → Step d extra cur j s j (sys_create_thread cur task argl args t new s).1
  exits :
      (j : ℕ → ℕ) (s : Procs W) (t : ℕ) (exitval : ℤ)
      → count (s.owner_ptcb t) (s.pcbs cur).ptcb_list ≡ 1
      → (s.ptcbs (s.owner_ptcb t)).exited ≡ false
      → is_zero (decrement (s.pcbs cur).thread_count) ≡ false
      → Step d extra cur j s j (sys_thread_exit d cur t exitval s).1

module _ {W : Type 0} (extra : ℕ → ℕ) (cur : ℕ) where
  joins-IsCounted :
      {j : ℕ → ℕ} {s : Procs W} (self tid : ℕ) (e : Bool)
      → IsCounted extra cur j s
      → let r = sys_thread_join cur self tid e s in
        IsCounted extra cur (if is_asleep r then more j tid else j) (state_of r)
  joins-IsCounted {j = j} {s = s} self tid e v = elim (join_cases cur tid self e s) [
    | inl stop ↦ rw stop v
    | inr (some_one, on) ↦
        let w = waiting-IsCounted extra cur tid j s (omega (arith, some_one, v.once tid)) v in
        elim (resume_cases cur tid e (waiting cur tid s)) [
          | inl asleep ↦ rw (on, asleep) w
          | inr (r, x, back) ↦
              rw (on, back)
                (IsCounted-congr (λ a. ground arith)
                  (joined-IsCounted extra cur tid (more j tid) (waiting cur tid s) (ground arith)
                    w))
        ]
  ]

  wakes-IsCounted :
      {j : ℕ → ℕ} {s : Procs W} (tid : ℕ) (e : Bool)
      → 1 ≤ j tid
      → IsCounted extra cur j s
      → let r = join_resume cur tid e s in
        IsCounted extra cur (if is_asleep r then j else fewer j tid) (state_of r)
  wakes-IsCounted {j = j} {s = s} tid e h v = elim (resume_cases cur tid e s) [
    | inl asleep ↦ rw asleep v
    | inr (r, x, back) ↦ rw back (joined-IsCounted extra cur tid j s h v)
  ]

  detaches-IsCounted :
      {j : ℕ → ℕ} {s : Procs W} (tid : ℕ)
      → IsCounted extra cur j s
      → IsCounted extra cur j (sys_thread_detach cur tid s).2
  unfolding sys_thread_detach
  detaches-IsCounted {s = s} tid v = elim (Bool-cases (holds tid (s.pcbs cur).ptcb_list)) [
    | inr alien ↦ rw alien v
    | inl mine ↦ elim (Bool-cases (s.ptcbs tid).exited) [
      | inl gone ↦ rw (mine, gone) v
      | inr on ↦
          rw (mine, on)
            (record { once = v.once; held = v.held; refs = λ a h. ground (arith, v.refs a h, on) })
    ]
  ]

  creates-IsCounted :
      {j : ℕ → ℕ} {s : Procs W} (task : Option ℕ) (argl : ℤ) (args : Option (List ℕ)) (t new : ℕ)
      → extra new ≡ 0
      → count new (s.pcbs cur).ptcb_list ≡ 0
      → IsCounted extra cur j s
      → IsCounted extra cur j (sys_create_thread cur task argl args t new s).1
  unfolding sys_create_thread
  creates-IsCounted {s = s} task argl args t new plain fresh v = record {
    once = λ a. ground (arith, created_list cur task argl args t new a s, v.once a, fresh);
    held = λ a h. ground (arith, created_list cur task argl args t new a s, v.held a h, fresh);
    refs = λ a h. elim (ℕ_discrete a new) [
      | yes e ↦ ground (arith, e, plain, fresh, v.held new, v.once new)
      | no n ↦ ground (arith, n, v.refs a, h, created_list cur task argl args t new a s)
    ];
  }

  exits-IsCounted :
      {j : ℕ → ℕ} {s : Procs W} (d : Driver W) (t : ℕ) (exitval : ℤ)
      → count (s.owner_ptcb t) (s.pcbs cur).ptcb_list ≡ 1
      → (s.ptcbs (s.owner_ptcb t)).exited ≡ false
      → is_zero (decrement (s.pcbs cur).thread_count) ≡ false
      → IsCounted extra cur j s
      → IsCounted extra cur j (sys_thread_exit d cur t exitval s).1
  unfolding counted_down
  exits-IsCounted {s = s} d t exitval here alive others v =
      rw (early_lem d cur t exitval s others) (record {
        once = λ a. ground (arith, v.once a);
        held = λ a h. ground (arith, v.held a h);
        refs = λ a h. ground (arith, h, v.refs a, here, alive);
      })

-- Any number of calls.
pub data Run {W : Type 0} (d : Driver W) (extra : ℕ → ℕ) (cur : ℕ)
    : (ℕ → ℕ) → Procs W → (ℕ → ℕ) → Procs W → Type 0 where
  stop : (j : ℕ → ℕ) (s : Procs W) → Run d extra cur j s j s
  step :
      {j j' j'' : ℕ → ℕ} {s s' s'' : Procs W}
      → Step d extra cur j s j' s'
      → Run d extra cur j' s' j'' s''
      → Run d extra cur j s j'' s''

Step-IsCounted :
    {W : Type 0} {d : Driver W} {extra : ℕ → ℕ} {cur : ℕ} {j : ℕ → ℕ} {s : Procs W} {j' : ℕ → ℕ}
    {s' : Procs W}
    → Step d extra cur j s j' s'
    → IsCounted extra cur j s
    → IsCounted extra cur j' s'
Step-IsCounted {extra = extra} {cur = cur} (joins j s self tid e) v =
    joins-IsCounted extra cur self tid e v
Step-IsCounted {extra = extra} {cur = cur} (wakes j s tid e h) v =
    wakes-IsCounted extra cur tid e h v
Step-IsCounted {extra = extra} {cur = cur} (detaches j s tid) v = detaches-IsCounted extra cur tid v
Step-IsCounted {extra = extra} {cur = cur} (creates j s task argl args t new p f) v =
    creates-IsCounted extra cur task argl args t new p f v
Step-IsCounted {d = d} {extra = extra} {cur = cur} (exits j s t x here alive others) v =
    exits-IsCounted extra cur d t x here alive others v

-- Over any sequence of new threads, joins, wakeups inside a join, detaches, and exits of other than
-- the last thread of a process, from a state where it holds: the block of a thread that is being
-- joined is in the list of its process, so it is not freed, and the reference counter of every
-- block in the list counts the joins in progress, the thread itself until it exits, and the extra
-- reference of a main thread.
pub Run-IsCounted :
    {W : Type 0} {d : Driver W} {extra : ℕ → ℕ} {cur : ℕ} {j : ℕ → ℕ} {s : Procs W} {j' : ℕ → ℕ}
    {s' : Procs W}
    → Run d extra cur j s j' s'
    → IsCounted extra cur j s
    → IsCounted extra cur j' s'
Run-IsCounted (stop j s) v = v
Run-IsCounted (step a b) v = Run-IsCounted b (Step-IsCounted a v)
