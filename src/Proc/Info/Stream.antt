-- ===== src/Proc/Info/Stream.antt =====
-- What a reader of an information stream sees.
use tiny_os_project.Prelude.{
  ℕ, zero, suc, ◌+◌, ◌-◌, ◌<◌, ◌≡◌, refl, inl, inr, Bool, true, false, not, Option, none, some,
  List, [], ◌∷◌, ltb, ◌==◌, ◌||◌, ◌&&◌, if◌then◌else◌, arith, ◌∙◌, ap, Bool-cases, lt→ltb,
}
use tiny_os_project.Prelude.Int.{ℤ, pos, to_nat}
use tiny_os_project.Proc.{max_proc, Pcb, is_free, is_zombie, get_pid}
use tiny_os_project.Proc.Info.{
  Procinfo, Picb, skip_free, can_copy, data_len, copy_bytes, overwrite, describe, finish_read,
  read_at, procinfo_read,
}

-- Of a structure, the pid, the parent's pid and whether the process is alive.
abbrev pub summary : Procinfo → ℤ × ℤ × Bool
summary info = (info.pid, info.ppid, info.alive)

abbrev pub prepend : ℤ × ℤ × Bool → Option (List (ℤ × ℤ × Bool)) → Option (List (ℤ × ℤ × Bool))
prepend x none = none
prepend x (some l) = some (x ∷ l)

-- What reads return until one returns 0, on fuel: `read_on` from a read's result on. There is no result
-- where a read has none, and where the fuel runs out.
abbrev read_on :
    (Picb → Option (List (ℤ × ℤ × Bool)))
    → Option (ℤ × Option Procinfo × Picb)
    → Option (List (ℤ × ℤ × Bool))
read_on rest none = none
read_on rest (some (n, none, picb)) = some []
read_on rest (some (n, some info, picb)) = prepend (summary info) (rest picb)

pub read_until_end : (size_of fuel : ℕ) → Picb → (ℕ → Pcb) → Option (List (ℤ × ℤ × Bool))
read_until_end size_of zero picb pt = none
read_until_end size_of (suc fuel) picb pt =
    read_on (λ b. read_until_end size_of fuel b pt) (procinfo_read size_of picb pt)

-- Whether the arguments of a block can be copied.
abbrev pub is_readable : Pcb → Bool
is_readable b = can_copy (data_len b.argl) b.args

-- Whether those of each block in use can, among the `left` blocks from `c` on.
unfoldable pub all_readable : (left c : ℕ) → (ℕ → Pcb) → Bool
all_readable zero c pt = true
all_readable (suc left) c pt =
    (is_free (pt c).pstate || is_readable (pt c)) && all_readable left (c + 1) pt

-- The processes of the `left` blocks from `c` on.
unfoldable pub used_from : (left c : ℕ) → (ℕ → Pcb) → List (ℤ × ℤ × Bool)
used_from zero c pt = []
used_from (suc left) c pt =
    let rest = used_from left (c + 1) pt in
    if is_free (pt c).pstate
    then rest
    else (pos c, get_pid (pt c).parent, not (is_zombie (pt c).pstate)) ∷ rest

prepend-if :
    (x : ℤ × ℤ × Bool) (b : Bool) (l : List (ℤ × ℤ × Bool))
    → prepend x (if b then some l else none) ≡ (if b then some (x ∷ l) else none)
prepend-if x true l = refl
prepend-if x false l = refl

module _ (size_of : ℕ) (pt : ℕ → Pcb) where
  -- A read at a free block is the read at the next one.
  skips :
      (left c : ℕ) (info : Procinfo)
      → c + suc left ≡ max_proc
      → is_free (pt c).pstate ≡ true
      → procinfo_read size_of (record { info = info; cursor = c }) pt
        ≡ procinfo_read size_of (record { info = info; cursor = c + 1 }) pt
  unfolding procinfo_read skip_free
  skips left c info e f =
      let far : max_proc - c ≡ suc left = omega (arith, e) in
      let near : max_proc - (c + 1) ≡ left = omega (arith, e) in
      let small : ltb c max_proc ≡ true = lt→ltb c max_proc (omega (arith, e)) in
      rw (far, near, f, small) refl

  finds :
      (left c : ℕ) (info : Procinfo)
      → c + suc left ≡ max_proc
      → is_free (pt c).pstate ≡ false
      → procinfo_read size_of (record { info = info; cursor = c }) pt ≡ read_at size_of c pt info
  unfolding procinfo_read skip_free
  finds left c info e f = let far : max_proc - c ≡ suc left = omega (arith, e) in rw (far, f) refl

  -- The read of a block in use.
  read_used :
      (left c : ℕ) (info : Procinfo)
      → c + suc left ≡ max_proc
      → read_at size_of c pt info
        ≡ finish_read size_of c (pt c) (copy_bytes (data_len (pt c).argl) (pt c).args info.args)
  read_used left c info e =
      let inside : (c == max_proc) ≡ false = ground (arith, e) in rw inside refl

  ends :
      (c : ℕ) (info : Procinfo)
      → c ≡ max_proc
      → procinfo_read size_of (record { info = info; cursor = c }) pt
        ≡ some (pos 0, none, record { info = info; cursor = c })
  unfolding procinfo_read skip_free
  ends c info e = rw e refl

  passes :
      (left c fuel : ℕ) (info : Procinfo)
      → c + suc left ≡ max_proc
      → is_free (pt c).pstate ≡ true
      → read_until_end size_of (suc fuel) (record { info = info; cursor = c }) pt
        ≡ read_until_end size_of (suc fuel) (record { info = info; cursor = c + 1 }) pt
  unfolding read_until_end
  passes left c fuel info e f =
      ap (read_on (λ b. read_until_end size_of fuel b pt)) (skips left c info e f)

  -- The reads of an information stream on a table that stays as it is, from any cursor on and given
  -- more fuel than blocks are left, return the pid, the parent's pid and the state of each block in
  -- use behind the cursor, each once, in the order of the pids, until a read returns 0, where the
  -- arguments of each of these blocks can be copied; where those of one cannot, as with a positive
  -- length of NULL, there is no result.
  pub read_until_end-used_from :
      (left c fuel : ℕ) (info : Procinfo)
      → c + left ≡ max_proc
      → left < fuel
      → read_until_end size_of fuel (record { info = info; cursor = c }) pt
        ≡ (if all_readable left c pt then some (used_from left c pt) else none)
  unfolding read_until_end used_from all_readable
  read_until_end-used_from left c zero info e h = absurd (omega (arith, h))
  read_until_end-used_from zero c (suc fuel) info e h =
      rw (ends c info (omega (arith, e)), read_until_end) refl
  read_until_end-used_from (suc left) c (suc fuel) info e h =
      elim (Bool-cases (is_free (pt c).pstate)) [
        | inl f ↦ rw f (
            passes left c fuel info e f
            ∙ read_until_end-used_from left (c + 1) (suc fuel) info (omega (arith, e))
                (omega (arith, h)))
        | inr f ↦ elim (Bool-cases (is_readable (pt c))) [
          | inl r ↦
              rw (finds left c info e f, read_used left c info e, f, r, read_until_end)
                (ap (prepend (pos c, get_pid (pt c).parent, not (is_zombie (pt c).pstate))) (
                    read_until_end-used_from left (c + 1) fuel
                      (describe c (pt c)
                        (overwrite (to_nat (data_len (pt c).argl)) (pt c).args info.args))
                      (omega (arith, e)) (omega (arith, h)))
                  ∙ prepend-if (pos c, get_pid (pt c).parent, not (is_zombie (pt c).pstate))
                      (all_readable left (c + 1) pt) (used_from left (c + 1) pt))
          | inr r ↦ rw (finds left c info e f, read_used left c info e, f, r, read_until_end) refl
        ]
      ]
