-- ===== src/Barrier/Runs.antt =====
-- The runs of a barrier.
use tiny_os_project.Prelude.{ℕ, zero, suc, ◌+◌, ◌^◌, ◌≤◌, ◌<◌, ◌≡◌, refl, arith}
use tiny_os_project.Barrier.{outside, Barrier, Section, goes, barrier_sync, Reached, start, next}
use tiny_os_project.Barrier.Rounds.{
  sleepers, IsBarrier, Awaits, waits, opens, leaves, sleeps_on, barrier_sync-Awaits,
}

none_arrived : (size : ℕ) → sleepers size (λ k. outside) ≡ 0
none_arrived zero = refl
none_arrived (suc size) = omega (arith, none_arrived size)

-- The invariant, with a bound on the epoch.
run-IsBarrier_early :
    (n size m : ℕ) (bar : Barrier)
    → 0 < n
    → n < 2 ^ 32
    → m < 2 ^ 32
    → Reached n size m bar
    → IsBarrier n size bar × (bar.epoch ≤ m)
run-IsBarrier_early n size _ _ some_count small early start = (
  record {
    room = some_count;
    counted = none_arrived size;
    current = λ k e h. absurd (cc (h));
    past = λ k e h. absurd (cc (h));
  },
  omega arith,
)
run-IsBarrier_early n size _ bar' some_count small early (next {m} {bar} i lt before e) =
    let (v, bound) =
      run-IsBarrier_early n size m bar some_count small (omega (arith, early)) before in
    go (barrier_sync n i bar) e
      (barrier_sync-Awaits n size i bar v small (omega (arith, bound, early)) lt) bound
  where
    goes_on :
        (b : Barrier)
        → goes b ≡ goes bar'
        → IsBarrier n size b
        → b.epoch ≤ suc m
        → IsBarrier n size bar' × (bar'.epoch ≤ suc m)
    goes_on b e v h = let same : b ≡ bar' = cc (e) in rw⁻¹ same (v, h)

    go :
        (o : Section)
        → o ≡ goes bar'
        → Awaits n size i bar o
        → bar.epoch ≤ m
        → IsBarrier n size bar' × (bar'.epoch ≤ suc m)
    go _ e (waits b v x y z) h = goes_on b e v (omega (arith, z, h))
    go _ e (opens b v x y z q r) h = goes_on b e v (omega (arith, r, h))
    go _ e (leaves x b v y z q) h = goes_on b e v (omega (arith, q, h))
    go _ e (sleeps_on x) h = absurd (cc (e))

-- For a barrier of `n` threads, above 0 and below 2 ^ 32, in every state that fewer than 2 ^ 32 - 1
-- sections of any threads in any order lead to: the threads that sleep have arrived in the current
-- epoch and are as many as it counts, fewer than `n`; the next section of an arrival sleeps, or it
-- is the last of `n`, leaves and wakes all up; a thread that was woken up leaves; no assertion
-- fails.
pub Reached-Awaits :
    (n size m i : ℕ) (bar : Barrier)
    → 0 < n
    → n < 2 ^ 32
    → m + 1 < 2 ^ 32
    → i < size
    → Reached n size m bar
    → IsBarrier n size bar × Awaits n size i bar (barrier_sync n i bar)
Reached-Awaits n size m i bar some_count small early lt r =
    let (v, bound) = run-IsBarrier_early n size m bar some_count small (omega (arith, early)) r in
    (v, barrier_sync-Awaits n size i bar v small (omega (arith, bound, early)) lt)
