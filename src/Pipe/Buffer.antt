-- ===== src/Pipe/Buffer.antt =====
-- The transfer loops of `pipe_write` and `pipe_read` against the bytes that the pipe holds.
use tiny_os_project.Prelude.{
  ℕ, zero, suc, ◌+◌, ◌-◌, ◌≤◌, ◌<◌, ◌≡◌, refl, ap₂, inl, List, [], ◌∷◌, ◌++◌, arith, dec_lt, lt→ltb,
  false, ◌⊎◌, ltb, update, get_or, append_assoc, append-nil, min, ◌∙◌, sym,
}
use tiny_os_project.Pipe.{PipeCb, pipe_buffer_size, put_byte, take_byte, write_loop, read_loop}
use tiny_os_project.Pipe.Ring.{IsValid, contents, put_byte-contents, take_byte-contents}

-- The `k` bytes of a caller's buffer from offset `i` on.
abbrev pub slice : (ℕ → ℕ) → ℕ → ℕ → List ℕ
slice buf i zero = []
slice buf i (suc k) = buf i ∷ slice buf (i + 1) k

-- What the loop of `pipe_write` has done when it stops after `k` bytes.
pub record Wrote (p : PipeCb) (buf : ℕ → ℕ) (counter k : ℕ) (out : ℕ × PipeCb) : Type 0 where
  pub moved : out.0 ≡ counter + k
  pub valid : IsValid out.1
  pub held : contents out.1 ≡ contents p ++ slice buf counter k
  pub used : out.1.used_space ≡ p.used_space + k
  pub same_reader : out.1.reader ≡ p.reader
  pub same_writer : out.1.writer ≡ p.writer

Wrote-none :
    (p : PipeCb) (buf : ℕ → ℕ) (counter : ℕ) → IsValid p → Wrote p buf counter 0 (counter, p)
Wrote-none p buf counter v = record {
  moved = omega arith;
  valid = v;
  held = sym (append-nil (contents p));
  used = omega arith;
  same_reader = refl;
  same_writer = refl;
}

Wrote-more :
    (p : PipeCb) (buf : ℕ → ℕ) (counter k : ℕ) (out : ℕ × PipeCb)
    → IsValid p
    → p.used_space < pipe_buffer_size
    → Wrote (put_byte p (buf counter)) buf (counter + 1) k out
    → Wrote p buf counter (suc k) out
Wrote-more p buf counter k out v h w = record {
  moved = omega (arith, w.moved);
  valid = w.valid;
  held = w.held ∙ rw ((put_byte-contents p (buf counter) v h).1, append_assoc);
  used = omega (arith, w.used);
  same_reader = w.same_reader;
  same_writer = w.same_writer;
}

-- It transfers as many bytes as are given and fit.
pub write_loop-Wrote :
    (left counter : ℕ) (buf : ℕ → ℕ) (p : PipeCb)
    → IsValid p
    → Wrote p buf counter
        (min left (pipe_buffer_size - p.used_space))
        (write_loop left counter buf p)
unfolding write_loop
write_loop-Wrote zero counter buf p v =
    let none_left : min zero (pipe_buffer_size - p.used_space) ≡ 0 = omega arith in
    rw none_left (Wrote-none p buf counter v)
write_loop-Wrote (suc left) counter buf p v = elim (dec_lt p.used_space pipe_buffer_size) [
  | yes room ↦
      let q = put_byte p (buf counter) in
      let moved : min (suc left) (pipe_buffer_size - p.used_space)
          ≡ suc (min left (pipe_buffer_size - (p.used_space + 1))) =
        omega arith in
      rw (lt→ltb p.used_space pipe_buffer_size room, moved)
        (Wrote-more p buf counter (min left (pipe_buffer_size - (p.used_space + 1)))
          (write_loop left (counter + 1) buf q) v room
          (write_loop-Wrote left (counter + 1) buf q (put_byte-contents p (buf counter) v room).0))
  | no full ↦
      let stop : ltb p.used_space pipe_buffer_size ≡ false = ground arith in
      let none_fit : min (suc left) (pipe_buffer_size - p.used_space) ≡ 0 = omega arith in
      rw (stop, none_fit) (Wrote-none p buf counter v)
]

-- What the loop of `pipe_read` has done when it stops after `k` bytes.
pub record Read (p : PipeCb) (buf : ℕ → ℕ) (counter k : ℕ) (out : ℕ × (ℕ → ℕ) × PipeCb)
    : Type 0 where
  pub moved : out.0 ≡ counter + k
  pub valid : IsValid out.2
  pub held : contents p ≡ slice out.1 counter k ++ contents out.2
  pub kept : (i : ℕ) → (i < counter) ⊎ (counter + k ≤ i) → out.1 i ≡ buf i
  pub used : out.2.used_space + k ≡ p.used_space
  pub same_reader : out.2.reader ≡ p.reader
  pub same_writer : out.2.writer ≡ p.writer

Read-none :
    (p : PipeCb) (buf : ℕ → ℕ) (counter : ℕ) → IsValid p → Read p buf counter 0 (counter, buf, p)
Read-none p buf counter v = record {
  moved = omega arith;
  valid = v;
  held = refl;
  kept = λ i out. refl;
  used = omega arith;
  same_reader = refl;
  same_writer = refl;
}

Read-more :
    (p : PipeCb) (buf : ℕ → ℕ) (counter k : ℕ) (out : ℕ × (ℕ → ℕ) × PipeCb)
    → IsValid p
    → 0 < p.used_space
    → Read (take_byte p) (update buf counter (get_or p.buffer p.r_position 0)) (counter + 1) k out
    → Read p buf counter (suc k) out
Read-more p buf counter k out v h r =
    let byte = get_or p.buffer p.r_position 0 in
    let stored : out.1 counter ≡ byte = r.kept counter (inl (omega arith)) ∙ ground arith in
    record {
      moved = omega (arith, r.moved);
      valid = r.valid;
      held = (take_byte-contents p v h).1 ∙ ap₂ ◌∷◌ (sym stored) r.held;
      kept = λ i far. ground (arith, r.kept i);
      used = omega (arith, r.used);
      same_reader = r.same_reader;
      same_writer = r.same_writer;
    }

-- It transfers as many bytes as are asked for and held.
pub read_loop-Read :
    (left counter : ℕ) (buf : ℕ → ℕ) (p : PipeCb)
    → IsValid p
    → Read p buf counter (min left p.used_space) (read_loop left counter buf p)
unfolding read_loop
read_loop-Read zero counter buf p v =
    let none_left : min zero p.used_space ≡ 0 = omega arith in
    rw none_left (Read-none p buf counter v)
read_loop-Read (suc left) counter buf p v = elim (dec_lt 0 p.used_space) [
  | yes more ↦
      let q = take_byte p in
      let out = update buf counter (get_or p.buffer p.r_position 0) in
      let moved : min (suc left) p.used_space ≡ suc (min left (p.used_space - 1)) = omega arith in
      rw (lt→ltb 0 p.used_space more, moved)
        (Read-more p buf counter (min left (p.used_space - 1)) (read_loop left (counter + 1) out q)
          v more (read_loop-Read left (counter + 1) out q (take_byte-contents p v more).0))
  | no empty ↦
      let stop : ltb 0 p.used_space ≡ false = ground arith in
      let none_held : min (suc left) p.used_space ≡ 0 = omega arith in
      rw (stop, none_held) (Read-none p buf counter v)
]
