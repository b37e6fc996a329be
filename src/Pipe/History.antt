-- ===== src/Pipe/History.antt =====
-- Sequences of calls on one pipe, by any threads in any order: each call, and each thread that wakes
-- up inside a call, is one step, since the kernel lock is held between two waits.
use tiny_os_project.Prelude.{
  ℕ, ◌≡◌, refl, ◌⊎◌, inl, inr, List, [], ◌∷◌, ◌++◌, arith, append_assoc, append-nil, Bool, true,
  false, not, Option, some, none, ◌&&◌, if◌then◌else◌, Bool-cases, ◌==◌, ◌||◌,
}
use tiny_os_project.Prelude.Int.{ℤ, pos}
use tiny_os_project.Pipe.{
  PipeCb, Cond, has_space, has_data, Outcome, sleeps, returns, pipe_buffer_size, is_null,
  write_resume, read_resume, pipe_write, pipe_read, pipe_writer_close, pipe_reader_close,
}
use tiny_os_project.Pipe.Ring.{IsValid, contents}
use tiny_os_project.Pipe.Buffer.{write_loop-Wrote, read_loop-Read}
use tiny_os_project.Pipe.Refine.{moved}

-- `wakes_` stands for a thread that comes back from `kernel_wait`.
pub data Call : Type 0 where
  writes reads wakes_writing wakes_reading : (ℕ → ℕ) → ℕ → Call
  closes_writer closes_reader : Call

abbrev pub closed : ℤ × Option PipeCb × List Cond → Outcome
closed (r, q, conds) = returns r q (λ i. 0) conds

unfoldable pub step : PipeCb → Call → Outcome
step p (writes buf n) = pipe_write (some p) buf n
step p (reads buf n) = pipe_read (some p) buf n
step p (wakes_writing buf n) = write_resume p buf n
step p (wakes_reading buf n) = read_resume p buf n
step p closes_writer = closed (pipe_writer_close (some p))
step p closes_reader = closed (pipe_reader_close (some p))

-- The pipe after the steps so far, with all bytes that writes accepted and that reads delivered.
pub record Log : Type 0 where
  pub pipe : Option PipeCb
  pub sent : List ℕ
  pub received : List ℕ

abbrev pub accepted : Call → ℤ → (ℕ → ℕ) → List ℕ
accepted (writes _ _) r buf = moved r buf
accepted (wakes_writing _ _) r buf = moved r buf
accepted _ r buf = []

abbrev pub delivered : Call → ℤ → (ℕ → ℕ) → List ℕ
delivered (reads _ _) r buf = moved r buf
delivered (wakes_reading _ _) r buf = moved r buf
delivered _ r buf = []

abbrev pub record_outcome : Log → Call → Outcome → Log
record_outcome l c (sleeps cond p) = record l { pipe = some p }
record_outcome l c (returns r q buf conds) = record {
  pipe = q;
  sent = l.sent ++ accepted c r buf;
  received = l.received ++ delivered c r buf;
}

-- Nothing more happens to a pipe that was freed.
pub run : Log → List Call → Log
unfolding step
run l [] = l
run l (c ∷ cs) = run (elim l.pipe [ none ↦ l | some p ↦ record_outcome l c (step p c) ]) cs

-- What was received is the start of what was sent; the rest is what a live pipe holds.
pub data InOrder (l : Log) : Type 0 where
  freed : (rest : List ℕ) → l.pipe ≡ none → l.sent ≡ l.received ++ rest → InOrder l
  alive : (p : PipeCb) → l.pipe ≡ some p → IsValid p → l.sent ≡ l.received ++ contents p → InOrder l

abbrev Keeps : PipeCb → Call → Outcome → Type 0
Keeps p c (sleeps cond q) = q ≡ p
Keeps p c (returns r none buf conds) = (accepted c r buf ≡ []) × (delivered c r buf ≡ [])
Keeps p c (returns r (some q) buf conds) =
    IsValid q × (contents p ++ accepted c r buf ≡ delivered c r buf ++ contents q)

write_resume-Keeps :
    (p : PipeCb) (b buf : ℕ → ℕ) (m n : ℕ)
    → IsValid p
    → Keeps p (wakes_writing b m) (write_resume p buf n)
unfolding write_resume
write_resume-Keeps p b buf m n v =
    elim (Bool-cases
      (p.used_space == pipe_buffer_size && (if is_null p.reader then false else true))) [
        | inl waits ↦ rw waits refl
        | inr goes ↦ rw goes (elim (Bool-cases (is_null p.reader)) [
          | inl shut ↦ rw shut (v, append-nil (contents p))
          | inr open_end ↦
              let w = write_loop-Wrote n 0 buf p v in
              rw open_end (w.valid, ground (arith, w.moved, w.held))
        ])
      ]

read_resume-Keeps :
    (p : PipeCb) (b buf : ℕ → ℕ) (m n : ℕ)
    → IsValid p
    → Keeps p (wakes_reading b m) (read_resume p buf n)
unfolding read_resume
read_resume-Keeps p b buf m n v =
    elim (Bool-cases (p.used_space == 0 && (if is_null p.writer then false else true))) [
      | inl waits ↦ rw waits refl
      | inr goes ↦
          let r = read_loop-Read n 0 buf p v in
          rw goes (r.valid, ground (arith, r.moved, r.held, append-nil (contents p)))
    ]

step-Keeps : (p : PipeCb) (c : Call) → IsValid p → Keeps p c (step p c)
unfolding step pipe_write pipe_read pipe_writer_close pipe_reader_close
step-Keeps p (writes buf n) v = elim (Bool-cases (is_null p.reader || is_null p.writer)) [
  | inl shut ↦ rw shut (v, append-nil (contents p))
  | inr open_ends ↦
      rw open_ends (swap_kind (write_resume p buf n) (write_resume-Keeps p buf buf n n v))
]
  where
    swap_kind : (o : Outcome) → Keeps p (wakes_writing buf n) o → Keeps p (writes buf n) o
    swap_kind (sleeps cond q) k = k
    swap_kind (returns r none out conds) k = k
    swap_kind (returns r (some q) out conds) k = k
step-Keeps p (reads buf n) v = elim (Bool-cases (is_null p.reader)) [
  | inl shut ↦ rw shut (v, append-nil (contents p))
  | inr open_end ↦ rw open_end (swap_kind (read_resume p buf n) (read_resume-Keeps p buf buf n n v))
]
  where
    swap_kind : (o : Outcome) → Keeps p (wakes_reading buf n) o → Keeps p (reads buf n) o
    swap_kind (sleeps cond q) k = k
    swap_kind (returns r none out conds) k = k
    swap_kind (returns r (some q) out conds) k = k
step-Keeps p (wakes_writing buf n) v = write_resume-Keeps p buf buf n n v
step-Keeps p (wakes_reading buf n) v = read_resume-Keeps p buf buf n n v
step-Keeps p closes_writer v =
    close (is_null p.reader) (record p { writer = none }) (omega arith, append-nil (contents p))
  where
    close :
        (t : Bool) (q : PipeCb)
        → IsValid q × (contents p ++ [] ≡ [] ++ contents q)
        → Keeps p closes_writer
            (closed (if t then (pos 0, none, []) else (pos 0, some q, has_data ∷ [])))
    close true q k = (refl, refl)
    close false q k = k
step-Keeps p closes_reader v =
    close (is_null p.writer) (record p { reader = none }) (omega arith, append-nil (contents p))
  where
    close :
        (t : Bool) (q : PipeCb)
        → IsValid q × (contents p ++ [] ≡ [] ++ contents q)
        → Keeps p closes_reader
            (closed (if t then (pos 0, none, []) else (pos 0, some q, has_space ∷ [])))
    close true q k = (refl, refl)
    close false q k = k

record_outcome-InOrder :
    (l : Log) (p : PipeCb) (c : Call) (o : Outcome)
    → IsValid p
    → l.sent ≡ l.received ++ contents p
    → Keeps p c o
    → InOrder (record_outcome l c o)
record_outcome-InOrder l p c (sleeps cond q) v e k = rw k (alive p refl v e)
record_outcome-InOrder l p c (returns r none buf conds) v e k =
    freed (contents p) refl (rw (k.0, k.1, append-nil, append-nil) e)
record_outcome-InOrder l p c (returns r (some q) buf conds) v e k =
    alive q refl k.0 (rw (e, append_assoc, k.1, append_assoc))

pub log_step-InOrder :
    (l : Log) (c : Call)
    → InOrder l
    → InOrder (elim l.pipe [ none ↦ l | some p ↦ record_outcome l c (step p c) ])
log_step-InOrder l c (freed rest e f) = rw e (freed rest e f)
log_step-InOrder l c (alive p e v f) =
    rw e (record_outcome-InOrder l p c (step p c) v f (step-Keeps p c v))

-- Over any sequence of calls on a pipe, of threads that wake up inside a call, and of closes, from
-- a log where it holds: the bytes that reads delivered are the first of the bytes that writes
-- accepted, in order, none lost, added or repeated, and while the pipe lives what is missing is
-- what it holds.
pub run-InOrder : (cs : List Call) (l : Log) → InOrder l → InOrder (run l cs)
unfolding run
run-InOrder [] l o = o
run-InOrder (c ∷ cs) l o = run-InOrder cs _ (log_step-InOrder l c o)

abbrev pub announces : Cond → List Cond → Bool
announces c [] = false
announces has_space (has_space ∷ cs) = true
announces has_data (has_data ∷ cs) = true
announces c (d ∷ cs) = announces c cs

-- A thread inside `pipe_write` or `pipe_read` would go on waiting.
abbrev pub writer_waits : PipeCb → Bool
writer_waits p = p.used_space == pipe_buffer_size && not (is_null p.reader)

abbrev pub reader_waits : PipeCb → Bool
reader_waits p = p.used_space == 0 && not (is_null p.writer)

-- That of a writer ends when the pipe has room or no reader, or is freed.
abbrev pub writer_goes : Option PipeCb → Bool
writer_goes none = true
writer_goes (some q) = not (writer_waits q)

-- The end of the reader on a pipe whose writer is closed, which frees the pipe.
abbrev pub FreesUnannounced : PipeCb → Call → Option PipeCb → List Cond → Type 0
FreesUnannounced p c q conds = (c ≡ closes_reader) × (p.writer ≡ none) × (q ≡ none) × (conds ≡ [])

module _ (p : PipeCb) (r : ℤ) (buf : ℕ → ℕ) (conds : List Cond) (v : IsValid p) where
  closes_reader-announces :
      (o : Option ℕ) (q : Option PipeCb)
      → p.writer ≡ o
      → step p closes_reader ≡ returns r q buf conds
      → (announces has_space conds ≡ true) ⊎ FreesUnannounced p closes_reader q conds
  unfolding step pipe_reader_close
  closes_reader-announces none q o e = inr (refl, o, ground (arith, o, e), ground (arith, o, e))
  closes_reader-announces (some w) q o e = inl (ground (arith, o, e))

  -- No wakeup of a writer is lost: a call on a valid pipe that returns, and ends the condition
  -- under which writers wait, broadcasts `has_space`; or it is the close of the reader on a pipe
  -- whose writer is closed, which frees the pipe and announces nothing.
  pub step-announces_space :
      (c : Call) (q : Option PipeCb)
      → step p c ≡ returns r q buf conds
      → writer_waits p ≡ true
      → writer_goes q ≡ true
      → (announces has_space conds ≡ true) ⊎ FreesUnannounced p c q conds
  unfolding step pipe_write pipe_read write_resume read_resume pipe_writer_close
  step-announces_space (writes b n) q e w u =
      inl (ground (arith, (write_loop-Wrote n 0 b p v).used))
  step-announces_space (reads b n) q e w u = inl (ground arith)
  step-announces_space (wakes_writing b n) q e w u =
      inl (ground (arith, (write_loop-Wrote n 0 b p v).used))
  step-announces_space (wakes_reading b n) q e w u = inl (ground arith)
  step-announces_space closes_writer q e w u = inl (ground arith)
  step-announces_space closes_reader q e w u = closes_reader-announces p.writer q refl e

module _ (p q : PipeCb) (c : Call) (r : ℤ) (buf : ℕ → ℕ) (conds : List Cond) (v : IsValid p) where
  -- No wakeup of a reader is lost: a call on a valid pipe that returns and leaves the pipe, and
  -- ends the condition under which readers wait, broadcasts `has_data`.
  pub step-announces_data :
      step p c ≡ returns r (some q) buf conds
      → reader_waits p ≡ true
      → reader_waits q ≡ false
      → announces has_data conds ≡ true
  unfolding step pipe_write pipe_read write_resume read_resume pipe_writer_close pipe_reader_close
  step-announces_data = data_comes c
    where
      data_comes :
          (c : Call)
          → step p c ≡ returns r (some q) buf conds
          → reader_waits p ≡ true
          → reader_waits q ≡ false
          → announces has_data conds ≡ true
      data_comes (writes b n) e w u = ground arith
      data_comes (reads b n) e w u = ground (arith, (read_loop-Read n 0 b p v).used)
      data_comes (wakes_writing b n) e w u = ground arith
      data_comes (wakes_reading b n) e w u = ground (arith, (read_loop-Read n 0 b p v).used)
      data_comes closes_writer e w u = ground arith
      data_comes closes_reader e w u = ground arith
