-- ===== src/Barrier/Rounds.antt =====
-- The rounds of a barrier.
use tiny_os_project.Prelude.{
  ℕ, zero, suc, ◌+◌, ◌%◌, ◌^◌, ◌≤◌, ◌<◌, ◌≡◌, ◌≢◌, ◌⊎◌, refl, inl, inr, arith, true, false, ltb,
  ◌==◌, ℕ_discrete, update, update_self, update_other,
}
use tiny_os_project.Barrier.{
  BarrierThread, outside, asleep, awake, Barrier, Section, goes, stays, set_thread, roused,
  run_section, barrier_sync,
}

abbrev pub sleeps : BarrierThread → ℕ
sleeps (asleep e) = 1
sleeps _ = 0

-- How many of the first `size` threads sleep.
abbrev pub sleepers : (size : ℕ) → (ℕ → BarrierThread) → ℕ
sleepers zero f = 0
sleepers (suc size) f = sleepers size f + sleeps (f size)

-- The threads that sleep have arrived in the current epoch, and are as many as the barrier counts; a thread
-- that is awake has arrived in an earlier one.
pub record IsBarrier (n size : ℕ) (bar : Barrier) : Type 0 where
  pub room : bar.count < n
  pub counted : sleepers size bar.threads ≡ bar.count
  pub current : (k e : ℕ) → bar.threads k ≡ asleep e → e ≡ bar.epoch
  pub past : (k e : ℕ) → bar.threads k ≡ awake e → e < bar.epoch

sleepers_other :
    (size i : ℕ) (f : ℕ → BarrierThread) (w : BarrierThread)
    → size ≤ i
    → sleepers size (update f i w) ≡ sleepers size f
sleepers_other zero i f w h = refl
sleepers_other (suc size) i f w h =
    rw
      (
        update_other f i size w (λ e. absurd (omega (arith, e, h))),
        sleepers_other size i f w (omega arith),
      )
      refl

sleepers-update :
    (size i : ℕ) (f : ℕ → BarrierThread) (w : BarrierThread)
    → i < size
    → sleepers size (update f i w) + sleeps (f i) ≡ sleepers size f + sleeps w
sleepers-update zero i f w lt = absurd (omega arith)
sleepers-update (suc size) i f w lt = elim (ℕ_discrete size i) [
  | yes e ↦ rw (e, update_self f i w, sleepers_other i i f w (omega arith)) (omega arith)
  | no e ↦ rw (update_other f i size w e) (omega (arith, sleepers-update size i f w (omega arith)))
]

roused_none : (w : BarrierThread) → sleeps (roused w) ≡ 0
roused_none outside = refl
roused_none (asleep e) = refl
roused_none (awake e) = refl

sleepers-roused : (size : ℕ) (f : ℕ → BarrierThread) → sleepers size (λ k. roused (f k)) ≡ 0
sleepers-roused zero f = refl
sleepers-roused (suc size) f = rw (sleepers-roused size f, roused_none (f size)) refl

roused_not : (w : BarrierThread) (e : ℕ) → roused w ≢ asleep e
roused_not outside e h = absurd (cc (h))
roused_not (asleep x) e h = absurd (cc (h))
roused_not (awake x) e h = absurd (cc (h))

-- What the section of a thread does: an arrival sleeps while fewer than `n` threads have arrived, and with
-- the last of them all are awake; a thread that was woken up leaves; no assertion fails.
pub data Awaits (n size i : ℕ) (bar : Barrier) : Section → Type 0 where
  waits :
      (bar' : Barrier)
      → IsBarrier n size bar'
      → bar.threads i ≡ outside
      → bar'.threads i ≡ asleep bar.epoch
      → bar'.epoch ≡ bar.epoch
      → Awaits n size i bar (goes bar')
  opens :
      (bar' : Barrier)
      → IsBarrier n size bar'
      → bar.threads i ≡ outside
      → sleepers size bar.threads + 1 ≡ n
      → bar'.threads i ≡ outside
      → sleepers size bar'.threads ≡ 0
      → bar'.epoch ≡ bar.epoch + 1
      → Awaits n size i bar (goes bar')
  leaves :
      (e : ℕ) (bar' : Barrier)
      → IsBarrier n size bar'
      → bar.threads i ≡ awake e
      → bar'.threads i ≡ outside
      → bar'.epoch ≡ bar.epoch
      → Awaits n size i bar (goes bar')
  sleeps_on : bar.threads i ≡ asleep bar.epoch → Awaits n size i bar stays

roused_asleep : (w : BarrierThread) (e : ℕ) → roused w ≡ awake e → (w ≡ asleep e) ⊎ (w ≡ awake e)
roused_asleep outside e h = absurd (cc (h))
roused_asleep (asleep x) e h = inl (cc (h))
roused_asleep (awake x) e h = inr h

module _ (n size i : ℕ) (bar : Barrier) (v : IsBarrier n size bar) (small : n < 2 ^ 32)
    (early : bar.epoch + 1 < 2 ^ 32) (inside : i < size) where
  -- The threads other than `i` keep what a change of `i` leaves them.
  threads_elsewhere :
      (f : ℕ → BarrierThread) (w : BarrierThread) (P : BarrierThread → Type 0)
      → P w
      → ((k : ℕ) → P (f k))
      → (k : ℕ) → P (update f i w k)
  threads_elsewhere f w P own rest k = elim (ℕ_discrete k i) [
    | yes same ↦ rw (same, update_self f i w) own
    | no other ↦ rw (update_other f i k w other) (rest k)
  ]

  sleeps_in :
      bar.threads i ≡ outside
      → (c : ℕ) → c ≡ bar.count + 1
      → c < n
      → IsBarrier n size (set_thread i (asleep bar.epoch) (record bar { count = c }))
  sleeps_in out c e h = record {
    room = h;
    counted = omega (
      arith,
      v.counted,
      rw out at (sleepers-update size i bar.threads (asleep bar.epoch) inside),
      e,
    );
    current =
        threads_elsewhere bar.threads (asleep bar.epoch)
          (λ w. (x : ℕ) → w ≡ asleep x → x ≡ bar.epoch) (λ x q. cc (q)) v.current;
    past =
        threads_elsewhere bar.threads (asleep bar.epoch)
          (λ w. (x : ℕ) → w ≡ awake x → x < bar.epoch) (λ x q. absurd (cc (q))) v.past;
  }

  gone_out : (e : ℕ) → bar.threads i ≡ awake e → IsBarrier n size (set_thread i outside bar)
  gone_out e was = record {
    room = v.room;
    counted =
        omega (arith, v.counted, rw was at (sleepers-update size i bar.threads outside inside));
    current =
        threads_elsewhere bar.threads outside (λ w. (x : ℕ) → w ≡ asleep x → x ≡ bar.epoch)
          (λ x q. absurd (cc (q))) v.current;
    past =
        threads_elsewhere bar.threads outside (λ w. (x : ℕ) → w ≡ awake x → x < bar.epoch)
          (λ x q. absurd (cc (q))) v.past;
  }

  opened : ℕ → Barrier
  opened e = record {
    count = 0;
    epoch = e;
    threads = update (λ k. roused (bar.threads k)) i outside;
  }

  none_sleep : sleepers size (update (λ k. roused (bar.threads k)) i outside) ≡ 0
  none_sleep = omega (
    arith,
    sleepers-update size i (λ k. roused (bar.threads k)) outside inside,
    roused_none (bar.threads i),
    sleepers-roused size bar.threads,
  )

  opens_all : (e : ℕ) → e ≡ bar.epoch + 1 → IsBarrier n size (opened e)
  unfolding opened
  opens_all e h = record {
    room = omega (arith, v.room);
    counted = none_sleep;
    current =
        threads_elsewhere (λ k. roused (bar.threads k)) outside
          (λ w. (x : ℕ) → w ≡ asleep x → x ≡ e) (λ x q. absurd (cc (q)))
          (λ k x q. absurd (roused_not (bar.threads k) x q));
    past =
        threads_elsewhere (λ k. roused (bar.threads k)) outside (λ w. (x : ℕ) → w ≡ awake x → x < e)
          (λ x q. absurd (cc (q)))
          (λ k x q. elim (roused_asleep (bar.threads k) x q) [
            | inl a ↦ omega (arith, v.current k x a, h)
            | inr a ↦ omega (arith, v.past k x a, h)
          ]);
  }

  counts : (bar.count + 1) % 2 ^ 32 ≡ bar.count + 1
  counts = omega (arith, v.room)

  advances : (bar.epoch + 1) % 2 ^ 32 ≡ bar.epoch + 1
  advances = omega arith

  arrival-Awaits : bar.threads i ≡ outside → Awaits n size i bar (run_section n i outside bar)
  unfolding opened
  arrival-Awaits out =
      let some_count : ltb 0 n ≡ true = ground (arith, v.room) in
      let below : ltb bar.count n ≡ true = ground (arith, v.room) in
      elim (ℕ_discrete (bar.count + 1) n) [
        | yes last ↦
            let full : ((bar.count + 1) % 2 ^ 32 == n) ≡ true = ground (arith, counts, last) in
            let newer : (bar.epoch == (bar.epoch + 1) % 2 ^ 32) ≡ false =
              ground (arith, advances) in
            rw (some_count, below, full, newer)
              (opens (opened ((bar.epoch + 1) % 2 ^ 32))
                (opens_all ((bar.epoch + 1) % 2 ^ 32) advances) out (omega (arith, v.counted, last))
                (update_self (λ k. roused (bar.threads k)) i outside) none_sleep advances)
        | no more ↦
            let full : ((bar.count + 1) % 2 ^ 32 == n) ≡ false = ground (arith, counts, more) in
            let same : (bar.epoch == bar.epoch) ≡ true = ground arith in
            rw (some_count, below, full, same)
              (waits _
                (sleeps_in out ((bar.count + 1) % 2 ^ 32) counts
                  (omega (arith, counts, more, v.room)))
                out (update_self bar.threads i _) refl)
      ]

  section-Awaits :
      (w : BarrierThread) → bar.threads i ≡ w → Awaits n size i bar (run_section n i w bar)
  section-Awaits outside e = arrival-Awaits e
  section-Awaits (asleep x) e = sleeps_on (rw (v.current i x e) at e)
  section-Awaits (awake x) e =
      let older : (x == bar.epoch) ≡ false = ground (arith, v.past i x e) in
      rw older (
        leaves x (set_thread i outside bar) (gone_out x e) e (update_self bar.threads i outside)
          refl)

  pub barrier_sync-Awaits : Awaits n size i bar (barrier_sync n i bar)
  unfolding barrier_sync
  barrier_sync-Awaits = section-Awaits (bar.threads i) refl
