-- ===== src/Symposium/Tests.antt =====
-- Two philosophers who eat once each, the second of them after a wait.
use tiny_os_project.Prelude.{ℕ, zero, suc, ◌+◌, ◌*◌, ◌≤◌, ◌<◌, ◌≡◌, refl, arith}
use tiny_os_project.Symposium.{
  Table, gone, Move, moves, stays, fails_assertion, philosopher, left_of, right_of, try_to_eat,
  symposium_table_init, Reached, start, next,
}
use tiny_os_project.Symposium.Monitor.{IsSeated}
use tiny_os_project.Symposium.Sections.{Goes}
use tiny_os_project.Symposium.Runs.{Reached-Goes, meals, stuck-gone, Reached-upper}

abbrev after : Move → Table → Table
after (moves t) before = t
after stays before = before
after fails_assertion before = before

unfoldable turn : ℕ → Table → Table
unfolding philosopher left_of right_of try_to_eat
turn i t = after (philosopher 2 1 i t) t

abbrev one_waits : Table
one_waits = turn 1 (turn 0 (turn 1 (turn 0 symposium_table_init)))

abbrev both_gone : Table
both_gone = turn 1 (turn 1 (turn 1 (turn 0 (turn 0 one_waits))))

one_waits-Reached : Reached 2 1 4 one_waits
unfolding turn philosopher left_of right_of try_to_eat symposium_table_init
one_waits-Reached =
    next 1 (omega arith)
      (next 0 (omega arith) (next 1 (omega arith) (next 0 (omega arith) start refl) refl) refl) refl

both_gone-Reached : Reached 2 1 9 both_gone
unfolding turn philosopher left_of right_of try_to_eat symposium_table_init
both_gone-Reached =
    next 1 (omega arith)
      (next 1 (omega arith)
        (next 1 (omega arith)
          (next 0 (omega arith) (next 0 (omega arith) one_waits-Reached refl) refl) refl)
        refl)
      refl

all_stay : (i : ℕ) → i < 2 → philosopher 2 1 i both_gone ≡ stays
unfolding turn philosopher left_of right_of try_to_eat symposium_table_init
all_stay zero h = refl
all_stay (suc zero) h = refl
all_stay (suc (suc i)) h = absurd (omega arith)

Reached-Goes_example : IsSeated 2 1 one_waits × Goes 2 1 1 one_waits (philosopher 2 1 1 one_waits)
Reached-Goes_example = Reached-Goes 2 1 4 1 one_waits one_waits-Reached (omega arith)

stuck-gone_example : (both_gone.stage 1 ≡ gone) × (meals both_gone-Reached 1 ≡ 1)
stuck-gone_example = stuck-gone 2 1 9 both_gone both_gone-Reached all_stay 1 (omega arith)

Reached-upper_example : 9 ≤ 2 * (2 + 3 * 1)
Reached-upper_example = Reached-upper 2 1 9 both_gone both_gone-Reached
