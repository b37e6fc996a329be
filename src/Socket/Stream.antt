-- ===== src/Socket/Stream.antt =====
-- Two connected sockets, and the bytes that go from one to the other.
pub mod Order
pub mod Closes
pub mod Runs
use tiny_os_project.Prelude.{
  ℕ, zero, suc, ◌≡◌, ◌≢◌, refl, inl, inr, Bool, true, false, Option, none, some, List, [], ◌∷◌,
  ◌++◌, ◌==◌, if◌then◌else◌, update, arith, append-nil, ap, sym, ◌∙◌, Option-cases, Bool-cases,
  subst,
}
use tiny_os_project.Prelude.Int.{ℤ, pos}
use tiny_os_project.Pipe.{
  PipeCb, Outcome, write_resume, read_resume, pipe_writer_close, pipe_reader_close,
}
use tiny_os_project.Pipe
use tiny_os_project.Pipe.Refine.{moved}
use tiny_os_project.Pipe.History.{
  Call, Log, step, record_outcome, InOrder, log_step-InOrder, writes, reads, wakes_writing,
  wakes_reading, closes_writer, closes_reader,
}
use tiny_os_project.Socket.{SocketState, peer, SocketCb, Sockets, ◌>>=◌}
use tiny_os_project.Socket.Transfer.{
  set_pipe, store_outcome, socket_read, socket_write, close_reader, close_writer, close_both,
  shut_peer, shut_socket,
}

-- The socket at `a` is a peer of the one at `b`, writes into the pipe `v` and reads the pipe `w`.
pub record IsPeer (a b v w : ℕ) (s : Sockets) : Type 0 where
  pub block : SocketCb
  pub found : s.sockets a ≡ some block
  pub joined : block.state ≡ peer b v w

pub record IsConnected (a b v w : ℕ) (s : Sockets) : Type 0 where
  pub one : IsPeer a b v w s
  pub other : IsPeer b a w v s
  pub two_pipes : v ≢ w

-- A call of a thread on one of the two sockets, `true` for the one at `a`, or the end of a wait in it.
pub data PairCall : Type 0 where
  sends receives resumes_sending resumes_receiving : Bool → (ℕ → ℕ) → ℕ → PairCall
  shuts : Bool → (how : ℕ) → PairCall

-- The sockets after the calls so far, with the bytes that writes at `a` accepted and that reads at `b`
-- delivered.
pub record Traffic : Type 0 where
  pub state : Sockets
  pub sent : List ℕ
  pub received : List ℕ

-- A thread that sleeps in a call has the address of the pipe.
abbrev pub resume : (w : ℕ) → (PipeCb → Outcome) → Sockets → Option (Outcome × Sockets)
resume w f s = do p ← s.pipes w; some (f p, store_outcome w (f p) s)

abbrev pub bytes_of : Outcome → List ℕ
bytes_of (Pipe.sleeps cond p) = []
bytes_of (Pipe.returns r p buf conds) = moved r buf

abbrev pub sending : Traffic → Option (Outcome × Sockets) → Option Traffic
sending t none = none
sending t (some (o, s)) =
    some (record { state = s; sent = t.sent ++ bytes_of o; received = t.received })

abbrev pub receiving : Traffic → Option (Outcome × Sockets) → Option Traffic
receiving t none = none
receiving t (some (o, s)) =
    some (record { state = s; sent = t.sent; received = t.received ++ bytes_of o })

abbrev pub unseen {ℓ} : {A : Type ℓ} → Traffic → Option (A × Sockets) → Option Traffic
unseen t none = none
unseen t (some (o, s)) = some (record t { state = s })

abbrev pub shutting {ℓ κ} :
    {A : Type ℓ} {B : Type κ} → Traffic → Option (A × B × Sockets) → Option Traffic
shutting t none = none
shutting t (some (r, told, s)) = some (record t { state = s })

module _ (a b v w : ℕ) where
  unfoldable pub pair_step : PairCall → Traffic → Option Traffic
  pair_step (sends true buf n) t = sending t (socket_write (some a) buf n t.state)
  pair_step (sends false buf n) t = unseen t (socket_write (some b) buf n t.state)
  pair_step (receives true buf n) t = unseen t (socket_read (some a) buf n t.state)
  pair_step (receives false buf n) t = receiving t (socket_read (some b) buf n t.state)
  pair_step (resumes_sending true buf n) t =
      sending t (resume v (λ p. write_resume p buf n) t.state)
  pair_step (resumes_sending false buf n) t =
      unseen t (resume w (λ p. write_resume p buf n) t.state)
  pair_step (resumes_receiving true buf n) t =
      unseen t (resume w (λ p. read_resume p buf n) t.state)
  pair_step (resumes_receiving false buf n) t =
      receiving t (resume v (λ p. read_resume p buf n) t.state)
  pair_step (shuts true how) t = shutting t (shut_socket how (some a) t.state)
  pair_step (shuts false how) t = shutting t (shut_socket how (some b) t.state)

  -- A sequence of calls, up to one that follows a dangling pointer.
  unfoldable pub pair_run : List PairCall → Traffic → Traffic
  unfolding pair_step
  pair_run [] t = t
  pair_run (c ∷ cs) t = elim (pair_step c t) [ none ↦ t | some t' ↦ pair_run cs t' ]

abbrev pub log_of : (v : ℕ) → Traffic → Log
log_of v t = record { pipe = t.state.pipes v; sent = t.sent; received = t.received }

-- The two sockets are connected, and what was received at `b` is the start of what was sent at `a`; the
-- rest is what the pipe holds.
pub record IsStream (a b v w : ℕ) (t : Traffic) : Type 0 where
  pub connected : IsConnected a b v w t.state
  pub in_order : InOrder (log_of v t)

abbrev pub OnSuccess : (Traffic → Type 0) → Option Traffic → Type 0
OnSuccess P none = Unit {0}
OnSuccess P (some t) = P t
