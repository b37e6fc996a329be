-- ===== src/Pipe/Refine.antt =====
-- The calls of kernel_pipe.c seen as operations of the queue of Pipe/Fifo.
use tiny_os_project.Prelude.{
  ℕ, zero, suc, ◌+◌, ◌-◌, ◌≤◌, ◌≡◌, refl, ap, List, [], ◌∷◌, ◌++◌, arith, min, not, Option, some,
  none, length, take, drop,
}
use tiny_os_project.Prelude.Int.{ℤ, pos, negsuc}
use tiny_os_project.Pipe.{
  PipeCb, Outcome, sleeps, returns, pipe_buffer_size, is_null, read_loop, write_resume, read_resume,
}
use tiny_os_project.Pipe.Ring.{IsValid, contents, length-contents}
use tiny_os_project.Pipe.Buffer.{slice, write_loop-Wrote, read_loop-Read}
use tiny_os_project.Pipe.Fifo
use tiny_os_project.Pipe.Fifo.{Fifo, Seen, asleep, back}

abbrev pub view : PipeCb → Fifo
view p = record {
  reading = not (is_null p.reader);
  writing = not (is_null p.writer);
  bytes = contents p;
}

-- The bytes that a call moved: its result counts them in the caller's buffer.
abbrev pub moved : ℤ → (ℕ → ℕ) → List ℕ
moved (pos k) buf = slice buf 0 k
moved (negsuc k) buf = []

abbrev pub view_option : Option PipeCb → Option Fifo
view_option none = none
view_option (some p) = some (view p)

abbrev pub seen : Outcome → Seen
seen (sleeps c p) = asleep c (view p)
seen (returns r q buf conds) = back r (moved r buf) (view_option q) conds

length-slice : (buf : ℕ → ℕ) (i n : ℕ) → length (slice buf i n) ≡ n
length-slice buf i zero = refl
length-slice buf i (suc n) = ap suc (length-slice buf (i + 1) n)

take-slice : (buf : ℕ → ℕ) (i k n : ℕ) → k ≤ n → take k (slice buf i n) ≡ slice buf i k
take-slice buf i zero n h = refl
take-slice buf i (suc k) zero h = absurd (omega arith)
take-slice buf i (suc k) (suc n) h = ap (λ l. buf i ∷ l) (take-slice buf (i + 1) k n (omega arith))

take_front {ℓ} : {A : Type ℓ} (xs ys : List A) → take (length xs) (xs ++ ys) ≡ xs
take_front [] ys = refl
take_front (x ∷ xs) ys = ap (λ l. x ∷ l) (take_front xs ys)

drop_front {ℓ} : {A : Type ℓ} (xs ys : List A) → drop (length xs) (xs ++ ys) ≡ ys
drop_front [] ys = refl
drop_front (x ∷ xs) ys = drop_front xs ys

-- For a valid ring, `pipe_write` from its waiting loop on does what the bounded queue does: it
-- sleeps on a full pipe with a reader, fails without a reader, and else appends the longest prefix
-- that fits, returns its length and announces data.
pub write_resume_refines :
    (p : PipeCb) (buf : ℕ → ℕ) (n : ℕ)
    → IsValid p
    → seen (write_resume p buf n) ≡ Fifo.write (view p) (slice buf 0 n)
unfolding write_resume Fifo.write
write_resume_refines p buf n v =
    let k = min n (pipe_buffer_size - p.used_space) in
    let wrote = write_loop-Wrote n 0 buf p v in
    ground (
      arith,
      wrote.moved,
      wrote.held,
      wrote.same_reader,
      wrote.same_writer,
      length-contents p.buffer p.r_position p.used_space,
      length-slice buf 0 n,
      take-slice buf 0 k n,
    )

-- For a valid ring, `pipe_read` from its waiting loop on does what the bounded queue does: it
-- sleeps on an empty pipe with a writer, and else delivers and removes the oldest bytes, as many as
-- asked for and there, returns their number and announces space.
pub read_resume_refines :
    (p : PipeCb) (buf : ℕ → ℕ) (n : ℕ)
    → IsValid p
    → seen (read_resume p buf n) ≡ Fifo.read (view p) n
unfolding read_resume Fifo.read
read_resume_refines p buf n v =
    let k = min n p.used_space in
    let got = read_loop-Read n 0 buf p v in
    let out = read_loop n 0 buf p in
    ground (
      arith,
      got.moved,
      got.held,
      got.same_reader,
      got.same_writer,
      length-contents p.buffer p.r_position p.used_space,
      length-slice out.1 0 k,
      take_front (slice out.1 0 k) (contents out.2),
      drop_front (slice out.1 0 k) (contents out.2),
    )
