-- ===== src/Pipe.antt =====
-- kernel_pipe.c, pipes as ring buffers. A `Pipe_CB *` is an optional record, `none` for NULL and
-- after `free`. A call stops at `kernel_wait`: it is cut there into the part up to the test of the
-- waiting loop and the part from that test on, which runs again when the thread wakes up.
pub mod Ring
pub mod Buffer
pub mod Fifo
pub mod Refine
pub mod History
pub mod Open
mod Tests
use tiny_os_project.Prelude.{
  ℕ, zero, suc, ◌+◌, ◌-◌, Bool, true, false, ◌&&◌, ◌||◌, Option, none, some, List, [], ◌∷◌, ltb,
  ◌==◌, if◌then◌else◌, update, get_or, set, replicate,
}
use tiny_os_project.Prelude.Int.{ℤ, pos, minus_one}

abbrev pub pipe_buffer_size : ℕ
pipe_buffer_size = 8192

-- `reader` and `writer` are the FCBs of the two ends, `none` for a closed end.
pub record PipeCb : Type 0 where
  pub reader : Option ℕ
  pub writer : Option ℕ
  pub w_position : ℕ
  pub r_position : ℕ
  pub buffer : List ℕ
  pub used_space : ℕ

-- The condition variables of a pipe.
pub data Cond : Type 0 where
  has_space has_data : Cond

-- Where a call stands: asleep on a condition variable, or back with its result, the pipe, the
-- caller's buffer and the conditions that it broadcast.
pub data Outcome : Type 0 where
  sleeps : Cond → PipeCb → Outcome
  returns : ℤ → Option PipeCb → (ℕ → ℕ) → List Cond → Outcome

-- `xmalloc` leaves the two ends and the buffer undefined: they are arguments.
unfoldable pub acquire_pipe_cb : Option ℕ → Option ℕ → List ℕ → PipeCb
acquire_pipe_cb reader writer buffer = record {
  reader = reader;
  writer = writer;
  w_position = 0;
  r_position = 0;
  buffer = buffer;
  used_space = 0;
}

abbrev pub is_null {ℓ} : {A : Type ℓ} → Option A → Bool
is_null none = true
is_null (some a) = false

-- The step of a position of the ring, back to 0 from the end of the buffer.
abbrev pub advance : ℕ → ℕ
advance i = if i == pipe_buffer_size - 1 then 0 else i + 1

abbrev pub put_byte : PipeCb → ℕ → PipeCb
put_byte p byte = record p {
  buffer = set p.buffer p.w_position byte;
  w_position = advance p.w_position;
  used_space = p.used_space + 1;
}

-- The transfer loop of `pipe_write`, with `left` for `n - counter`.
pub write_loop : (left counter : ℕ) → (ℕ → ℕ) → PipeCb → ℕ × PipeCb
write_loop zero counter buf p = (counter, p)
write_loop (suc left) counter buf p =
    let rest = write_loop left (counter + 1) buf (put_byte p (buf counter)) in
    if ltb p.used_space pipe_buffer_size then rest else (counter, p)

-- `pipe_write` from the test of its waiting loop on.
pub write_resume : PipeCb → (ℕ → ℕ) → ℕ → Outcome
unfolding write_loop
write_resume p buf n =
    if p.used_space == pipe_buffer_size && (if is_null p.reader then false else true)
    then sleeps has_space p
    else if is_null p.reader
    then returns minus_one (some p) buf []
    else let (counter, q) = write_loop n 0 buf p in
      returns (pos counter) (some q) buf (has_data ∷ [])

unfoldable pub pipe_write : Option PipeCb → (ℕ → ℕ) → ℕ → Outcome
unfolding write_resume
pipe_write none buf n = returns minus_one none buf []
pipe_write (some p) buf n =
    if is_null p.reader || is_null p.writer
    then returns minus_one (some p) buf []
    else write_resume p buf n

abbrev pub take_byte : PipeCb → PipeCb
take_byte p = record p { r_position = advance p.r_position; used_space = p.used_space - 1 }

-- The transfer loop of `pipe_read`; the decrement of `used_space` runs only above 0.
pub read_loop : (left counter : ℕ) → (ℕ → ℕ) → PipeCb → ℕ × (ℕ → ℕ) × PipeCb
read_loop zero counter buf p = (counter, buf, p)
read_loop (suc left) counter buf p =
    let rest =
      read_loop left (counter + 1) (update buf counter (get_or p.buffer p.r_position 0))
        (take_byte p) in
    if ltb 0 p.used_space then rest else (counter, buf, p)

-- `pipe_read` from the test of its waiting loop on.
pub read_resume : PipeCb → (ℕ → ℕ) → ℕ → Outcome
unfolding read_loop
read_resume p buf n =
    if p.used_space == 0 && (if is_null p.writer then false else true)
    then sleeps has_data p
    else let (counter, out, q) = read_loop n 0 buf p in
      returns (pos counter) (some q) out (has_space ∷ [])

unfoldable pub pipe_read : Option PipeCb → (ℕ → ℕ) → ℕ → Outcome
unfolding read_resume
pipe_read none buf n = returns minus_one none buf []
pipe_read (some p) buf n =
    if is_null p.reader then returns minus_one (some p) buf [] else read_resume p buf n

-- The result, the pipe (`none` once freed) and the conditions broadcast.
unfoldable pub pipe_writer_close : Option PipeCb → ℤ × Option PipeCb × List Cond
pipe_writer_close none = (minus_one, none, [])
pipe_writer_close (some p) =
    let q = record p { writer = none } in
    if is_null q.reader then (pos 0, none, []) else (pos 0, some q, has_data ∷ [])

unfoldable pub pipe_reader_close : Option PipeCb → ℤ × Option PipeCb × List Cond
pipe_reader_close none = (minus_one, none, [])
pipe_reader_close (some p) =
    let q = record p { reader = none } in
    if is_null q.writer then (pos 0, none, []) else (pos 0, some q, has_space ∷ [])
