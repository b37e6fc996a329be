-- ===== src/Symposium.antt =====
-- symposium.c and symposium.h, the dining philosophers: a monitor over `Mutex_Lock`, `Cond_Wait` and
-- `Cond_Signal`. A philosopher's moves are its sections under the mutex, up to `Mutex_Unlock` or to the
-- sleep in `Cond_Wait`; the sections of different philosophers come in any order.
pub mod Ring
pub mod Monitor
pub mod Sections
pub mod Runs
pub mod Tests
use tiny_os_project.Prelude.{
  ℕ, suc, ◌+◌, ◌-◌, ◌%◌, ◌<◌, ◌≡◌, Bool, true, false, not, ◌&&◌, ltb, if◌then◌else◌, update,
}

pub data Phil : Type 0 where
  not_here thinking hungry eating : Phil

-- Where `SymposiumTable_philosopher` stands; `j` is the counter of its loop. `thinks` is the head of the
-- loop, `waits` is inside `Cond_Wait`, `eats` is the call of `eat`.
pub data Place : Type 0 where
  arrives gone : Place
  thinks waits eats : (j : ℕ) → Place

-- `asleep` says whether the philosopher waits on its condition variable for a signal.
pub record Table : Type 0 where
  pub state : ℕ → Phil
  pub asleep : ℕ → Bool
  pub stage : ℕ → Place

unfoldable pub left_of : (i n : ℕ) → ℕ
left_of i n = (i + 1) % n

unfoldable pub right_of : (i n : ℕ) → ℕ
right_of i n = (i + n - 1) % n

abbrev pub is_hungry : Phil → Bool
is_hungry hungry = true
is_hungry _ = false

abbrev pub is_eating : Phil → Bool
is_eating eating = true
is_eating _ = false

abbrev pub set_state : ℕ → Phil → Table → Table
set_state i p t = record t { state = update t.state i p }

abbrev pub move_to : ℕ → Place → Table → Table
move_to i p t = record t { stage = update t.stage i p }

unfoldable pub try_to_eat : (n i : ℕ) → Table → Table
unfolding left_of right_of
try_to_eat n i t =
    if is_hungry (t.state i)
      && not (is_eating (t.state (left_of i n)))
      && not (is_eating (t.state (right_of i n)))
    then record (set_state i eating t) { asleep = update t.asleep i false }
    else t

-- What the next section of a philosopher does. `stays` is for one that sleeps or has left.
pub data Move : Type 0 where
  moves : Table → Move
  stays fails_assertion : Move

-- The test of the loop around `Cond_Wait`, and the assertion behind the loop.
abbrev pub wait_or_eat : (i j : ℕ) → Table → Move
wait_or_eat i j t =
    if is_hungry (t.state i)
    then moves (move_to i (waits j) (record t { asleep = update t.asleep i true }))
    else if is_eating (t.state i)
    then moves (move_to i (eats j) t)
    else fails_assertion

abbrev pub section : (n bites i : ℕ) → Place → Table → Move
section n bites i arrives t = moves (move_to i (thinks 0) (set_state i thinking t))
section n bites i (thinks j) t =
    if ltb j bites
    then wait_or_eat i j (try_to_eat n i (set_state i hungry t))
    else moves (move_to i gone (set_state i not_here t))
section n bites i (waits j) t = if t.asleep i then stays else wait_or_eat i j t
section n bites i (eats j) t = moves (
    move_to i (thinks (j + 1))
      (try_to_eat n (right_of i n) (try_to_eat n (left_of i n) (set_state i thinking t))))
section n bites i gone t = stays

unfoldable pub philosopher : (n bites i : ℕ) → Table → Move
unfolding left_of right_of try_to_eat
philosopher n bites i t = section n bites i (t.stage i) t

-- `SymposiumTable_init`; a thread per philosopher starts at its first line.
unfoldable pub symposium_table_init : Table
symposium_table_init = record { state = λ i. not_here; asleep = λ i. false; stage = λ i. arrives }

-- The tables that sections of `n` philosophers lead to, after so many of them.
pub data Reached (n bites : ℕ) : ℕ → Table → Type 0 where
  start : Reached n bites 0 symposium_table_init
  next :
      {m : ℕ} {t t' : Table} (i : ℕ)
      → i < n
      → Reached n bites m t
      → philosopher n bites i t ≡ moves t'
      → Reached n bites (suc m) t'
