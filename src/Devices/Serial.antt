-- ===== src/Devices/Serial.antt =====
-- kernel_dev.c, `serial_read`. The BIOS is a parameter: a read of a port gives a byte or none.
use tiny_os_project.Prelude.{
  ℕ, zero, suc, ◌+◌, ◌≡◌, ◌≤◌, ◌<◌, refl, arith, Option, none, some, List, [], ◌∷◌, ◌==◌,
  if◌then◌else◌, update, length, take, drop, min, ◌⊎◌, inl, inr, ap₂, ◌∙◌,
}
use tiny_os_project.Pipe.Buffer.{slice}

-- Where the call stands: asleep on `rx_ready`, or back with its result and the caller's buffer.
pub data SerialOutcome (B : Type 0) : Type 0 where
  sleeps : B → SerialOutcome B
  returns : ℕ → (ℕ → ℕ) → B → SerialOutcome B

module _ {B : Type 0} (bios_read_serial : ℕ → B → Option ℕ × B) where
  -- The loop of `serial_read`, with `left` for `size - count`. It sleeps only at `count` 0, so a thread
  -- that wakes up runs the call again.
  pub serial_read_loop : (devno left count : ℕ) → (ℕ → ℕ) → B → SerialOutcome B
  serial_read_loop devno zero count buf b = returns count buf b
  serial_read_loop devno (suc left) count buf b =
      let (valid, b') = bios_read_serial devno b in
      elim valid [
        | some byte ↦ serial_read_loop devno left (count + 1) (update buf count byte) b'
        | none ↦ if count == 0 then sleeps b' else returns count buf b'
      ]

  pub serial_read : (devno : ℕ) → (ℕ → ℕ) → (size : ℕ) → B → SerialOutcome B
  unfolding serial_read_loop
  serial_read devno buf size b = serial_read_loop devno size 0 buf b

  -- What the driver relies on: the port delivers the bytes that have arrived, in order.
  module _ (devno : ℕ) (arrived : B → List ℕ)
      (empty : (b : B)
        → arrived b ≡ []
        → ((bios_read_serial devno b).0 ≡ none) × (arrived (bios_read_serial devno b).1 ≡ []))
      (next : (b : B) (x : ℕ) (l : List ℕ)
        → arrived b ≡ x ∷ l
        → ((bios_read_serial devno b).0 ≡ some x)
          × (arrived (bios_read_serial devno b).1 ≡ l)) where
    -- A return with the first `left` bytes of `l`, written from `count` on.
    record Got (left count : ℕ) (l : List ℕ) (buf : ℕ → ℕ) (out : SerialOutcome B) : Type 0 where
      filled : ℕ → ℕ
      bios : B
      back : out ≡ returns (count + min left (length l)) filled bios
      bytes : slice filled count (min left (length l)) ≡ take left l
      rest : arrived bios ≡ drop left l
      below : (i : ℕ) → i < count → filled i ≡ buf i

    loop_stop :
        (left count : ℕ) (buf : ℕ → ℕ) (b : B)
        → 1 ≤ count
        → arrived b ≡ []
        → Got (suc left) count [] buf (serial_read_loop devno (suc left) count buf b)
    unfolding serial_read_loop
    loop_stop left count buf b h e = record {
      filled = buf;
      bios = (bios_read_serial devno b).1;
      back = rw ((empty b e).0, serial_read_loop) (ground arith);
      bytes = let z : min (suc left) 0 ≡ 0 = omega arith in rw z refl;
      rest = (empty b e).1;
      below = λ i k. refl;
    }

    loop_next :
        (left count : ℕ) (buf : ℕ → ℕ) (b : B) (x : ℕ) (l : List ℕ)
        → arrived b ≡ x ∷ l
        → Got left (count + 1) l (update buf count x) (
            serial_read_loop devno left
              (count + 1)
              (update buf count x)
              (bios_read_serial devno b).1)
        → Got (suc left) count (x ∷ l) buf (serial_read_loop devno (suc left) count buf b)
    unfolding serial_read_loop
    loop_next left count buf b x l e g = record {
      filled = g.filled;
      bios = g.bios;
      back = rw ((next b x l e).0, serial_read_loop) (g.back ∙ ground arith);
      bytes =
          let z : min (suc left) (suc (length l)) ≡ suc (min left (length l)) = omega arith in
          rw z (ap₂ ◌∷◌ (g.below count (omega arith) ∙ ground arith) g.bytes);
      rest = g.rest;
      below = λ i h. ground (arith, g.below i);
    }

    loop_end :
        (count : ℕ) (l : List ℕ) (buf : ℕ → ℕ) (b : B)
        → arrived b ≡ l
        → Got 0 count l buf (serial_read_loop devno 0 count buf b)
    unfolding serial_read_loop
    loop_end count l buf b e = record {
      filled = buf;
      bios = b;
      back = let z : count + min 0 (length l) ≡ count = omega arith in rw z refl;
      bytes = let z : min 0 (length l) ≡ 0 = omega arith in rw z refl;
      rest = e;
      below = λ i h. refl;
    }

    serial_read_loop-Got :
        (left count : ℕ) (l : List ℕ) (buf : ℕ → ℕ) (b : B)
        → (1 ≤ count) ⊎ (1 ≤ length l) ⊎ (left ≡ 0)
        → arrived b ≡ l
        → Got left count l buf (serial_read_loop devno left count buf b)
    serial_read_loop-Got zero count l buf b h e = loop_end count l buf b e
    serial_read_loop-Got (suc left) count [] buf b h e =
        loop_stop left count buf b (ground (arith, h)) e
    serial_read_loop-Got (suc left) count (x ∷ l) buf b h e = loop_next left count buf b x l e (
        serial_read_loop-Got left (count + 1) l (update buf count x) (bios_read_serial devno b).1
          (inl (omega arith)) ((next b x l e).1))

    -- Where the BIOS gives the bytes that have arrived at the port, in order, and none when none
    -- has arrived, and at least one byte has arrived: `serial_read` returns without a sleep with as
    -- many bytes as were asked for and have arrived, the caller's buffer holds them in order, and
    -- the bytes behind them are left.
    pub serial_read-delivers :
        (buf : ℕ → ℕ) (size : ℕ) (b : B)
        → 1 ≤ length (arrived b)
        → let n = min size (length (arrived b)) in
          (filled : ℕ → ℕ) × (b' : B) × (serial_read devno buf size b ≡ returns n filled b')
          × (slice filled 0 n ≡ take size (arrived b))
          × (arrived b' ≡ drop size (arrived b))
    unfolding serial_read
    serial_read-delivers buf size b h =
        let g = serial_read_loop-Got size 0 (arrived b) buf b (inr (inl h)) refl in
        (g.filled, g.bios, g.back ∙ ground arith, g.bytes, g.rest)
