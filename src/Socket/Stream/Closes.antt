-- ===== src/Socket/Stream/Closes.antt =====
-- Two connected sockets keep the order of the bytes when ends of their pipes close.
use tiny_os_project.Prelude.{
  ℕ, ◌≡◌, refl, inl, inr, ◌&&◌, Option, none, some, List, [], ◌++◌, ◌==◌, if◌then◌else◌,
  update_self, update_other, append-nil, Option-cases, Bool-cases,
}
use tiny_os_project.Prelude.Int.{ℤ, pos, minus_one}
use tiny_os_project.Pipe.{PipeCb, pipe_writer_close, pipe_reader_close}
use tiny_os_project.Pipe.History
use tiny_os_project.Pipe.History.{
  Call, Log, step, record_outcome, InOrder, log_step-InOrder, writes, reads, wakes_writing,
  wakes_reading, closes_writer, closes_reader,
}
use tiny_os_project.Socket.{peer, Sockets, ◌>>=◌}
use tiny_os_project.Socket.Transfer.{
  Wake, is_success, set_pipe, closed_end, close_reader, close_writer, close_both, shut_peer,
}
use tiny_os_project.Socket.Stream.{Traffic, shutting, log_of, IsStream, OnSuccess}
use tiny_os_project.Socket.Stream.Order.{IsConnected-congr, IsStream-congr, log_stepped}

-- What a call that closes ends leaves.
abbrev pub OnState : (Sockets → Type 0) → Option (ℤ × List Wake × Sockets) → Type 0
OnState P none = Unit {0}
OnState P (some (r, told, s)) = P s

abbrev pub Streams : (a b v w : ℕ) → Traffic → Sockets → Type 0
Streams a b v w t s = IsStream a b v w (record t { state = s })

pub shutting-OnSuccess :
    (a b v w : ℕ) (t : Traffic) (m : Option (ℤ × List Wake × Sockets))
    → OnState (Streams a b v w t) m
    → OnSuccess (IsStream a b v w) (shutting t m)
shutting-OnSuccess a b v w t none i = tt
shutting-OnSuccess a b v w t (some (r, told, s)) i = i

-- A close of an end of our pipe, and of the other.
closed_ours :
    {a b v w : ℕ} (t : Traffic) (c : Call) (s : Sockets) (x : ℤ × Option PipeCb × List _)
    → InOrder (record_outcome (log_of v (record t { state = s })) c (History.closed x))
    → History.accepted c x.0 (λ i. 0) ≡ []
    → History.delivered c x.0 (λ i. 0) ≡ []
    → IsStream a b v w (record t { state = s })
    → Streams a b v w t (closed_end v x s).2
closed_ours {v = v} t c s (r, p, conds) i e f k = record {
  connected = IsConnected-congr (set_pipe v p s) refl k.connected;
  in_order =
      rw (update_self s.pipes v p) (rw (e, f, append-nil t.sent, append-nil t.received) at i);
}

closed_theirs :
    {a b v w : ℕ} (t : Traffic) (s : Sockets) (x : ℤ × Option PipeCb × List _)
    → IsStream a b v w (record t { state = s })
    → Streams a b v w t (closed_end w x s).2
closed_theirs {v = v} {w = w} t s (r, p, conds) k =
    IsStream-congr (set_pipe w p s) refl (update_other s.pipes w v p k.connected.two_pipes) k

module _ {a b v w : ℕ} (t : Traffic) (s : Sockets) (i : Streams a b v w t s) where
  reader_ours : OnState (Streams a b v w t) (close_reader v s)
  unfolding close_reader step
  reader_ours = elim (Option-cases (s.pipes v)) [
    | inl e ↦ rw e tt
    | inr (p, e) ↦ rw e (
        closed_ours t closes_reader s (pipe_reader_close (some p))
          (log_stepped v (record t { state = s }) closes_reader p e i.in_order) refl refl i)
  ]

  writer_ours : OnState (Streams a b v w t) (close_writer v s)
  unfolding close_writer step
  writer_ours = elim (Option-cases (s.pipes v)) [
    | inl e ↦ rw e tt
    | inr (p, e) ↦ rw e (
        closed_ours t closes_writer s (pipe_writer_close (some p))
          (log_stepped v (record t { state = s }) closes_writer p e i.in_order) refl refl i)
  ]

  reader_theirs : OnState (Streams a b v w t) (close_reader w s)
  unfolding close_reader step
  reader_theirs = elim (Option-cases (s.pipes w)) [
    | inl e ↦ rw e tt
    | inr (p, e) ↦ rw e (closed_theirs t s (pipe_reader_close (some p)) i)
  ]

  writer_theirs : OnState (Streams a b v w t) (close_writer w s)
  unfolding close_writer step
  writer_theirs = elim (Option-cases (s.pipes w)) [
    | inl e ↦ rw e tt
    | inr (p, e) ↦ rw e (closed_theirs t s (pipe_writer_close (some p)) i)
  ]

-- One close after another.
pub close_both-OnState :
    (P : Sockets → Type 0) (v w : ℕ) (s : Sockets)
    → OnState P (close_reader w s)
    → ((s' : Sockets) → P s' → OnState P (close_writer v s'))
    → OnState P (close_both v w s)
unfolding close_both
close_both-OnState P v w s first second = go (close_reader w s) first
  where
    then_writer :
        (r : ℤ) (told : List Wake) (m : Option (ℤ × List Wake × Sockets))
        → OnState P m
        → OnState P (
            m >>= λ x.
            some (if is_success r && is_success x.0 then pos 0 else minus_one, told ++ x.1, x.2))
    then_writer r told none h = tt
    then_writer r told (some (r2, told2, s2)) h = h

    go :
        (m : Option (ℤ × List Wake × Sockets))
        → OnState P m
        → OnState P (
            m >>= λ x. close_writer v x.2 >>= λ y.
            some (if is_success x.0 && is_success y.0 then pos 0 else minus_one, x.1 ++ y.1, y.2))
    go none h = tt
    go (some (r, told, s1)) h = then_writer r told (close_writer v s1) (second s1 h)

module _ {a b v w : ℕ} (t : Traffic) (i : IsStream a b v w t) where
  pub shut_one : (how : ℕ) → OnState (Streams a b v w t) (shut_peer how (peer b v w) t.state)
  unfolding shut_peer
  shut_one how = elim (Bool-cases (how == 1)) [
    | inl e ↦ rw e (reader_theirs t t.state i)
    | inr e ↦ rw e (elim (Bool-cases (how == 2)) [
      | inl f ↦ rw f (writer_ours t t.state i)
      | inr f ↦ rw f (elim (Bool-cases (how == 3)) [
        | inl g ↦ rw g (
            close_both-OnState (Streams a b v w t) v w t.state (reader_theirs t t.state i)
              (λ s' k. writer_ours t s' k))
        | inr g ↦ rw g i
      ])
    ])
  ]

  pub shut_other : (how : ℕ) → OnState (Streams a b v w t) (shut_peer how (peer a w v) t.state)
  unfolding shut_peer
  shut_other how = elim (Bool-cases (how == 1)) [
    | inl e ↦ rw e (reader_ours t t.state i)
    | inr e ↦ rw e (elim (Bool-cases (how == 2)) [
      | inl f ↦ rw f (writer_theirs t t.state i)
      | inr f ↦ rw f (elim (Bool-cases (how == 3)) [
        | inl g ↦ rw g (
            close_both-OnState (Streams a b v w t) w v t.state (reader_ours t t.state i)
              (λ s' k. writer_theirs t s' k))
        | inr g ↦ rw g i
      ])
    ])
  ]
