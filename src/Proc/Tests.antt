-- ===== src/Proc/Tests.antt =====
-- The processes on a table with four blocks in use: 0 and 1, and the children of 1, of which 2 lives and
-- 3 is a zombie. The process 2 has two threads and an open stream.
use tiny_os_project.Prelude.{
  ℕ, zero, suc, ◌+◌, ◌^◌, ◌≤◌, ◌<◌, ◌≡◌, refl, true, false, not, ◌&&◌, Option, none, some, [], ◌∷◌,
  ltb, ◌==◌, if◌then◌else◌, replicate, arith, count, sym, ℕ_discrete,
}
use tiny_os_project.Prelude.Int.{ℤ, pos, minus_one}
use tiny_os_project.Sched.Tests.{three}
use tiny_os_project.Streams.{file_indices}
use tiny_os_project.Streams.Initial.{count-file_indices}
use tiny_os_project.Streams.Refs.{occurs, occurs-le-length}
use tiny_os_project.Streams.Tests.{table, one_open, null_driver}
use tiny_os_project.Proc.{
  Pcb, Ptcb, Procs, PidState, free, alive, zombie, is_free, is_zombie, is_zero, decrement,
}
use tiny_os_project.Proc.Wait.{has_parent, sys_wait_child}
use tiny_os_project.Proc.Wait.Outcome.{Outcome, sys_wait_child-Outcome}
use tiny_os_project.Proc.Forest.{Chain, used_at, used_below, IsTree, IsTree-congr}
use tiny_os_project.Proc.Initial.{IsBounded}
use tiny_os_project.Proc.Exec.{sys_exec}
use tiny_os_project.Proc.Exec.Tree.{Executed, sys_exec-Executed}
use tiny_os_project.Proc.Exit.{Exiting, sys_thread_exit, sys_exit}
use tiny_os_project.Proc.Exit.Last.{Exited, sys_thread_exit-IsTree}
use tiny_os_project.Proc.Exit.Children.{Stopped, sys_exit-Stopped}
use tiny_os_project.Proc.Threads.{Joined, join_resume, sys_thread_join}
use tiny_os_project.Proc.Threads.Counts
use tiny_os_project.Proc.Threads.Counts.{more}
use tiny_os_project.Proc.Threads.Safe.{is_asleep, state_of, joins, exits, stop, step, Run-IsCounted}
use tiny_os_project.Proc.Info.{Procinfo}
use tiny_os_project.Proc.Info.Stream.{
  read_until_end, used_from, all_readable, read_until_end-used_from,
}

abbrev state_at : ℕ → PidState
state_at p = if ltb p 3 then alive else if p == 3 then zombie else free

abbrev parent_at : ℕ → Option ℕ
parent_at p =
    if ltb p 2 then none else if ltb p 4 then some 1 else if p == 65535 then none else some (p + 1)

abbrev block : ℕ → Pcb
block p = record {
  pstate = state_at p;
  parent = parent_at p;
  exitval = pos 0;
  main_thread = none;
  main_task = none;
  argl = pos 0;
  args = none;
  children_list = if p == 1 then 2 ∷ 3 ∷ [] else [];
  exited_list = if p == 1 then 3 ∷ [] else [];
  fidt = if p == 2 then table else replicate 16 none;
  ptcb_list = if p == 2 then 100 ∷ 101 ∷ [] else [];
  thread_count = if p == 2 then pos 2 else pos 1;
}

abbrev thread_block : ℕ → Ptcb
thread_block a = record {
  tcb = a + 1000;
  task = none;
  argl = pos 0;
  args = none;
  exitval = pos 0;
  exited = false;
  detached = false;
  refcount = if a == 100 then pos 2 else pos 1;
}

abbrev four : Procs ℕ
four = record {
  pcbs = block;
  pcb_freelist = some 4;
  process_count = 4;
  ptcbs = thread_block;
  owner_ptcb = λ t. 101;
  files = one_open;
  sched = three;
}

next_free : (i : ℕ) → 4 ≤ i → i + 1 < 65536 → parent_at i ≡ some (i + 1)
next_free i a b = ground (arith, a, b)

last_free : (i : ℕ) → 4 ≤ i → i + 1 ≡ 65536 → parent_at i ≡ none
last_free i a b = ground (arith, a, b)

-- The free blocks from `i` on.
free-Chain :
    (left i : ℕ) → 4 ≤ i → i + suc left ≡ 65536 → Chain block (some i) (file_indices (suc left) i)
unfolding file_indices
free-Chain zero i a e = (refl, rw (last_free i a (omega (arith, e))) tt)
free-Chain (suc left) i a e = (
  refl,
  rw (next_free i a (omega (arith, e)))
      (free-Chain left (i + 1) (omega (arith, a)) (omega (arith, e))),
)

unused_once_lem :
    (p left : ℕ)
    → 4 + left ≡ 65536
    → count p (file_indices left 4) ≡ (if is_free (state_at p) && ltb p 65536 then 1 else 0)
unused_once_lem p left e = ground (arith, count-file_indices p left 4, e)

unused_at : (n : ℕ) → 4 ≤ n → used_at (block n) ≡ 0
unused_at n h = ground (arith, h)

used_lem : (n : ℕ) → 4 ≤ n → used_below n block ≡ 4
unfolding used_below
used_lem zero h = absurd (omega (arith, h))
used_lem (suc n) h = elim (ℕ_discrete n 3) [
  | yes e ↦ rw e refl
  | no m ↦ rw (used_lem n (omega (arith, h, m)), unused_at n (omega (arith, h, m))) refl
]

children_lem :
    (p q : ℕ)
    → count p (if q == 1 then 2 ∷ 3 ∷ [] else [])
      ≡ (if not (is_free (state_at p)) && has_parent q (parent_at p) then 1 else 0)
children_lem p q = ground arith

exited_lem :
    (p q : ℕ)
    → count p (if q == 1 then 3 ∷ [] else [])
      ≡ (if is_zombie (state_at p) && has_parent q (parent_at p) then 1 else 0)
exited_lem p q = ground arith

four-IsTree : IsTree (file_indices 65532 4) four
four-IsTree = record {
  chain = free-Chain 65531 4 (omega arith) refl;
  unused_once = λ p. unused_once_lem p 65532 refl;
  counted = sym (used_lem 65536 (omega arith));
  children = children_lem;
  exited = exited_lem;
  parents = λ p q h. ground (arith, h);
  small = λ p h. ground (arith, h);
  apart = λ p. ground arith;
  root = λ h. refl;
}

sys_wait_child-Outcome_example :
    Outcome (file_indices 65532 4) 1 minus_one true four (sys_wait_child 1 minus_one true four)
sys_wait_child-Outcome_example = sys_wait_child-Outcome 1 true four-IsTree minus_one

sys_exec-Executed_example :
    Executed 2 four (file_indices 65532 4) (sys_exec 2 (some 7) (pos 3) none 50 200 four)
sys_exec-Executed_example = sys_exec-Executed 2 (some 7) (pos 3) none 50 200 four-IsTree refl

-- The last thread of the process 2.
abbrev single : Procs ℕ
single = record four { pcbs = λ p. record (block p) { thread_count = pos 1 } }

single-IsTree : IsTree (file_indices 65532 4) single
single-IsTree =
    IsTree-congr
      (record { pstate = λ p. refl; parent = λ p. refl; children = λ p. refl; exited = λ p. refl })
      refl refl four-IsTree

abbrev after_exit : Procs ℕ
after_exit = (sys_thread_exit null_driver 2 50 (pos 9) single).1

sys_thread_exit-IsTree_example :
    IsTree (file_indices 65532 4) after_exit × Exited true 2 single.pcbs after_exit.pcbs
sys_thread_exit-IsTree_example =
    sys_thread_exit-IsTree null_driver 2 50 (pos 9) single-IsTree refl refl
      (λ e. absurd (omega (arith, e))) (λ n e. absurd (ground (arith, e)))

sys_exit-Stopped_example :
    (r : Exiting ℕ) × (sys_exit 5 1 (pos 9) four ≡ some r) × Stopped 1 (pos 9) four r
sys_exit-Stopped_example = sys_exit-Stopped 1 (pos 9) 5 four-IsTree (omega arith)

few : (f : ℕ) → 0 + occurs f table + 32 < 2 ^ 32
few f = omega (arith, occurs-le-length f table)

-- The thread 100 is the main one.
abbrev main_only : ℕ → ℕ
main_only a = if a == 100 then 1 else 0

threads-IsCounted : Counts.IsCounted main_only 2 (λ a. 0) four
threads-IsCounted = record {
  once = λ a. ground arith;
  held = λ a h. ground (arith, h);
  refs = λ a h. ground (arith, h);
}

abbrev joining : Joined ℕ
joining = sys_thread_join 2 100 101 true four

abbrev joiners : ℕ → ℕ
joiners = if is_asleep joining then more (λ a. 0) 101 else λ a. 0

exit_legal :
    (count ((state_of joining).owner_ptcb 1101) ((state_of joining).pcbs 2).ptcb_list ≡ 1)
    × (((state_of joining).ptcbs ((state_of joining).owner_ptcb 1101)).exited ≡ false)
    × (is_zero (decrement ((state_of joining).pcbs 2).thread_count) ≡ false)
unfolding sys_thread_join join_resume
exit_legal = (refl, refl, refl)

-- The main thread joins the thread 101, which exits.
Run-IsCounted_example :
    Counts.IsCounted main_only 2 joiners
      (sys_thread_exit null_driver 2 1101 (pos 9) (state_of joining)).1
Run-IsCounted_example =
    Run-IsCounted
      (step (joins (λ a. 0) four 100 101 true) (
        step (exits joiners (state_of joining) 1101 (pos 9) exit_legal.0 exit_legal.1 exit_legal.2)
          (stop joiners _)))
      threads-IsCounted

-- Of the last three blocks, two are in use. The zombie holds no arguments; `length` is what its `argl`
-- still says.
abbrev end_of_table : (length : ℤ) → ℕ → Pcb
end_of_table length p = record (block p) {
  pstate = if p == 65534 then zombie else if p == 65535 then alive else free;
  parent = some 1;
  argl = if p == 65534 then length else pos 3;
  args = if p == 65534 then none else some (7 ∷ 8 ∷ 9 ∷ []);
}

abbrev nothing : Procinfo
nothing = record {
  pid = minus_one;
  ppid = minus_one;
  alive = false;
  thread_count = pos 0;
  main_task = none;
  argl = pos 0;
  args = λ i. 0;
}

read_until_end-used_from_example :
    read_until_end 168 4 (record { info = nothing; cursor = 65533 }) (end_of_table (pos 0)) ≡ (
      if all_readable 3 65533 (end_of_table (pos 0))
      then some (used_from 3 65533 (end_of_table (pos 0)))
      else none)
read_until_end-used_from_example =
    read_until_end-used_from 168 (end_of_table (pos 0)) 3 65533 4 nothing refl (omega arith)

-- Both blocks are seen, or the zombie's arguments are followed.
two_seen :
    used_from 3 65533 (end_of_table (pos 0))
    ≡ (pos 65534, pos 1, false) ∷ (pos 65535, pos 1, true) ∷ []
unfolding used_from
two_seen = refl

readable_without : all_readable 3 65533 (end_of_table (pos 0)) ≡ true
unfolding all_readable
readable_without = refl

unreadable_with : all_readable 3 65533 (end_of_table (pos 4)) ≡ false
unfolding all_readable
unreadable_with = refl

four-IsBounded : IsBounded block
four-IsBounded = record {
  pstate = λ p h. ground (arith, h);
  children = λ p h. ground (arith, h);
  exited = λ p h. ground (arith, h);
}
