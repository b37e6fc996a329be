-- ===== src/Socket/Stream/Order.antt =====
-- Two connected sockets keep the order of the bytes.
use tiny_os_project.Prelude.{
  ℕ, ◌≡◌, ◌≢◌, refl, inl, inr, some, ◌++◌, update_self, update_other, append-nil, ap, ◌∙◌,
  Option-cases,
}
use tiny_os_project.Pipe.{
  PipeCb, Outcome, write_resume, read_resume, pipe_write, pipe_read, pipe_writer_close,
  pipe_reader_close,
}
use tiny_os_project.Pipe
use tiny_os_project.Pipe.History.{
  Call, Log, step, record_outcome, InOrder, log_step-InOrder, writes, reads, wakes_writing,
  wakes_reading,
}
use tiny_os_project.Socket.{peer, Sockets}
use tiny_os_project.Socket.Transfer.{
  store_outcome, socket_read, socket_write, shut_peer, shut_socket,
}
use tiny_os_project.Socket.Stream.{
  IsPeer, IsConnected, Traffic, resume, bytes_of, sending, receiving, unseen, log_of, IsStream,
  OnSuccess,
}

stored_sockets : (w : ℕ) (o : Outcome) (s : Sockets) → (store_outcome w o s).sockets ≡ s.sockets
stored_sockets w (Pipe.sleeps cond p) s = refl
stored_sockets w (Pipe.returns r p buf conds) s = refl

stored_other :
    (v w : ℕ) (o : Outcome) (s : Sockets) → v ≢ w → (store_outcome w o s).pipes v ≡ s.pipes v
stored_other v w (Pipe.sleeps cond p) s n = update_other s.pipes w v (some p) n
stored_other v w (Pipe.returns r p buf conds) s n = update_other s.pipes w v p n

IsPeer-congr :
    {a b v w : ℕ} {s : Sockets} (s' : Sockets)
    → s'.sockets ≡ s.sockets
    → IsPeer a b v w s
    → IsPeer a b v w s'
IsPeer-congr {a = a} s' e i = record {
  block = i.block;
  found = ap (λ f. f a) e ∙ i.found;
  joined = i.joined;
}

pub IsConnected-congr :
    {a b v w : ℕ} {s : Sockets} (s' : Sockets)
    → s'.sockets ≡ s.sockets
    → IsConnected a b v w s
    → IsConnected a b v w s'
IsConnected-congr s' e c = record {
  one = IsPeer-congr s' e c.one;
  other = IsPeer-congr s' e c.other;
  two_pipes = c.two_pipes;
}

-- The same streams in another state.
pub IsStream-congr :
    {a b v w : ℕ} {t : Traffic} (s' : Sockets)
    → s'.sockets ≡ t.state.sockets
    → s'.pipes v ≡ t.state.pipes v
    → IsStream a b v w t
    → IsStream a b v w (record t { state = s' })
IsStream-congr {t = t} s' e f i = record {
  connected = IsConnected-congr s' e i.connected;
  in_order = rw f i.in_order;
}

sent_InOrder :
    (v : ℕ) (t : Traffic) (buf : ℕ → ℕ) (n : ℕ) (o : Outcome)
    → InOrder (record_outcome (log_of v t) (wakes_writing buf n) o)
    → InOrder (record {
      pipe = (store_outcome v o t.state).pipes v;
      sent = t.sent ++ bytes_of o;
      received = t.received;
    })
sent_InOrder v t buf n (Pipe.sleeps cond p) i =
    rw (update_self t.state.pipes v (some p), append-nil t.sent) i
sent_InOrder v t buf n (Pipe.returns r p out conds) i =
    rw (update_self t.state.pipes v p) (rw (append-nil t.received) at i)

received_InOrder :
    (v : ℕ) (t : Traffic) (buf : ℕ → ℕ) (n : ℕ) (o : Outcome)
    → InOrder (record_outcome (log_of v t) (wakes_reading buf n) o)
    → InOrder (record {
      pipe = (store_outcome v o t.state).pipes v;
      sent = t.sent;
      received = t.received ++ bytes_of o;
    })
received_InOrder v t buf n (Pipe.sleeps cond p) i =
    rw (update_self t.state.pipes v (some p), append-nil t.received) i
received_InOrder v t buf n (Pipe.returns r p out conds) i =
    rw (update_self t.state.pipes v p) (rw (append-nil t.sent) at i)

pub as_wake_writing :
    (l : Log) (buf : ℕ → ℕ) (n : ℕ) (o : Outcome)
    → record_outcome l (writes buf n) o ≡ record_outcome l (wakes_writing buf n) o
as_wake_writing l buf n (Pipe.sleeps cond p) = refl
as_wake_writing l buf n (Pipe.returns r p out conds) = refl

pub as_wake_reading :
    (l : Log) (buf : ℕ → ℕ) (n : ℕ) (o : Outcome)
    → record_outcome l (reads buf n) o ≡ record_outcome l (wakes_reading buf n) o
as_wake_reading l buf n (Pipe.sleeps cond p) = refl
as_wake_reading l buf n (Pipe.returns r p out conds) = refl

-- A step of the pipe that stands in the state.
pub log_stepped :
    (v : ℕ) (t : Traffic) (c : Call) (p : PipeCb)
    → t.state.pipes v ≡ some p
    → InOrder (log_of v t)
    → InOrder (record_outcome (log_of v t) c (step p c))
log_stepped v t c p e i = rw e at (log_step-InOrder (log_of v t) c i)

module _ {a b v w : ℕ} (t : Traffic) (i : IsStream a b v w t) where
  pub sends_ours :
      (c : Call) (buf : ℕ → ℕ) (n : ℕ) (f : PipeCb → Outcome)
      → ((p : PipeCb)
          → InOrder (record_outcome (log_of v t) c (step p c))
          → InOrder (record_outcome (log_of v t) (wakes_writing buf n) (f p)))
      → OnSuccess (IsStream a b v w) (sending t (resume v f t.state))
  sends_ours c buf n f same = elim (Option-cases (t.state.pipes v)) [
    | inl e ↦ rw e tt
    | inr (p, e) ↦ rw e (record {
      connected =
          IsConnected-congr (store_outcome v (f p) t.state) (stored_sockets v (f p) t.state)
            i.connected;
      in_order = sent_InOrder v t buf n (f p) (same p (log_stepped v t c p e i.in_order));
    })
  ]

  pub receives_ours :
      (c : Call) (buf : ℕ → ℕ) (n : ℕ) (f : PipeCb → Outcome)
      → ((p : PipeCb)
          → InOrder (record_outcome (log_of v t) c (step p c))
          → InOrder (record_outcome (log_of v t) (wakes_reading buf n) (f p)))
      → OnSuccess (IsStream a b v w) (receiving t (resume v f t.state))
  receives_ours c buf n f same = elim (Option-cases (t.state.pipes v)) [
    | inl e ↦ rw e tt
    | inr (p, e) ↦ rw e (record {
      connected =
          IsConnected-congr (store_outcome v (f p) t.state) (stored_sockets v (f p) t.state)
            i.connected;
      in_order = received_InOrder v t buf n (f p) (same p (log_stepped v t c p e i.in_order));
    })
  ]

  -- Calls on the pipe of the other direction.
  pub theirs : (f : PipeCb → Outcome) → OnSuccess (IsStream a b v w) (unseen t (resume w f t.state))
  theirs f = elim (Option-cases (t.state.pipes w)) [
    | inl e ↦ rw e tt
    | inr (p, e) ↦ rw e (
        IsStream-congr (store_outcome w (f p) t.state) (stored_sockets w (f p) t.state)
          (stored_other v w (f p) t.state i.connected.two_pipes) i)
  ]

-- The calls on a peer.
module _ {a b v w : ℕ} {s : Sockets} (c : IsPeer a b v w s) where
  pub peer_writes :
      (buf : ℕ → ℕ) (n : ℕ)
      → socket_write (some a) buf n s ≡ resume v (λ p. pipe_write (some p) buf n) s
  unfolding socket_write
  peer_writes buf n = rw (c.found, c.joined) refl

  pub peer_reads :
      (buf : ℕ → ℕ) (n : ℕ)
      → socket_read (some a) buf n s ≡ resume w (λ p. pipe_read (some p) buf n) s
  unfolding socket_read
  peer_reads buf n = rw (c.found, c.joined) refl

  pub peer_shuts : (how : ℕ) → shut_socket how (some a) s ≡ shut_peer how (peer b v w) s
  unfolding shut_socket
  peer_shuts how = rw (c.found, c.joined) refl
