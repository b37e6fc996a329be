-- ===== src/Socket/Stream/Runs.antt =====
-- Sequences of calls on two connected sockets.
use tiny_os_project.Prelude.{ℕ, inl, inr, true, false, some, List, [], ◌∷◌, Option-cases}
use tiny_os_project.Pipe.{write_resume, read_resume, pipe_write, pipe_read}
use tiny_os_project.Pipe.History.{step, writes, reads, wakes_writing, wakes_reading}
use tiny_os_project.Socket.Stream.{
  PairCall, sends, receives, resumes_sending, resumes_receiving, shuts, Traffic, pair_step,
  pair_run, IsStream, OnSuccess, log_of,
}
use tiny_os_project.Socket.Stream.Order.{
  sends_ours, receives_ours, theirs, as_wake_writing, as_wake_reading, peer_writes, peer_reads,
  peer_shuts,
}
use tiny_os_project.Socket.Stream.Closes.{shutting-OnSuccess, shut_one, shut_other}

module _ {a b v w : ℕ} where
  pair_step-IsStream :
      (c : PairCall) (t : Traffic)
      → IsStream a b v w t
      → OnSuccess (IsStream a b v w) (pair_step a b v w c t)
  unfolding pair_step step
  pair_step-IsStream (sends true buf n) t i = rw (peer_writes i.connected.one buf n) (
      sends_ours t i (writes buf n) buf n (λ p. pipe_write (some p) buf n)
        (λ p h. rw (as_wake_writing (log_of v t) buf n (pipe_write (some p) buf n)) at h))
  pair_step-IsStream (sends false buf n) t i =
      rw (peer_writes i.connected.other buf n) (theirs t i (λ p. pipe_write (some p) buf n))
  pair_step-IsStream (receives true buf n) t i =
      rw (peer_reads i.connected.one buf n) (theirs t i (λ p. pipe_read (some p) buf n))
  pair_step-IsStream (receives false buf n) t i = rw (peer_reads i.connected.other buf n) (
      receives_ours t i (reads buf n) buf n (λ p. pipe_read (some p) buf n)
        (λ p h. rw (as_wake_reading (log_of v t) buf n (pipe_read (some p) buf n)) at h))
  pair_step-IsStream (resumes_sending true buf n) t i =
      sends_ours t i (wakes_writing buf n) buf n (λ p. write_resume p buf n) (λ p h. h)
  pair_step-IsStream (resumes_sending false buf n) t i = theirs t i (λ p. write_resume p buf n)
  pair_step-IsStream (resumes_receiving true buf n) t i = theirs t i (λ p. read_resume p buf n)
  pair_step-IsStream (resumes_receiving false buf n) t i =
      receives_ours t i (wakes_reading buf n) buf n (λ p. read_resume p buf n) (λ p h. h)
  pair_step-IsStream (shuts true how) t i =
      rw (peer_shuts i.connected.one how) (shutting-OnSuccess a b v w t _ (shut_one t i how))
  pair_step-IsStream (shuts false how) t i =
      rw (peer_shuts i.connected.other how) (shutting-OnSuccess a b v w t _ (shut_other t i how))

-- Over any sequence of reads, writes, wakeups inside them and shutdowns on two connected sockets,
-- by any threads and short of a call that follows a dangling pointer: the sockets stay connected,
-- and the bytes that reads at the second socket delivered are the first of the bytes that writes at
-- the first accepted, in order; the rest is what the pipe holds while it is there.
pub pair_run-IsStream :
    (a b v w : ℕ) (cs : List PairCall) (t : Traffic)
    → IsStream a b v w t
    → IsStream a b v w (pair_run a b v w cs t)
unfolding pair_run
pair_run-IsStream a b v w [] t i = i
pair_run-IsStream a b v w (c ∷ cs) t i = elim (Option-cases (pair_step a b v w c t)) [
  | inl e ↦ rw (e, pair_run) i
  | inr (t', e) ↦
      rw (e, pair_run) (pair_run-IsStream a b v w cs t' (rw e at (pair_step-IsStream c t i)))
]
