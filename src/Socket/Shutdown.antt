-- ===== src/Socket/Shutdown.antt =====
-- kernel_socket.c, what a shutdown means to the two ends of a connection.
use tiny_os_project.Prelude.{
  ℕ, ◌≡◌, refl, ap, ◌∙◌, true, false, Option, none, some, [], ◌∷◌, update_self,
}
use tiny_os_project.Prelude.Int.{pos, minus_one}
use tiny_os_project.Pipe.{
  PipeCb, Outcome, has_space, has_data, read_resume, pipe_read, pipe_write, pipe_writer_close,
  pipe_reader_close,
}
use tiny_os_project.Pipe
use tiny_os_project.Pipe.Ring.{IsValid, contents}
use tiny_os_project.Pipe.Fifo.{read}
use tiny_os_project.Pipe.Refine.{seen, read_resume_refines}
use tiny_os_project.Socket.{Sockets}
use tiny_os_project.Socket.Transfer.{
  pipe_cond, set_pipe, close_reader, close_writer, shut_peer, shut_socket, socket_read,
  socket_write, close_peer, socket_close,
}
use tiny_os_project.Socket.Stream.{IsPeer, IsConnected, resume}
use tiny_os_project.Socket.Stream.Order.{peer_writes, peer_reads, peer_shuts, IsConnected-congr}

-- The outcome of a transfer.
abbrev pub outcome : Option (Outcome × Sockets) → Option Outcome
outcome none = none
outcome (some (o, s)) = some o

-- A call that returns -1 and changes nothing.
abbrev pub refusal : PipeCb → (ℕ → ℕ) → Option Outcome
refusal p buf = some (Pipe.returns minus_one (some p) buf [])

abbrev pub without_writer : PipeCb → PipeCb
without_writer p = record p { writer = none }

abbrev pub without_reader : PipeCb → PipeCb
without_reader p = record p { reader = none }

resumed :
    (w : ℕ) (p : PipeCb) (f : PipeCb → Outcome) (s : Sockets)
    → s.pipes w ≡ some p
    → outcome (resume w f s) ≡ some (f p)
resumed w p f s e = rw e refl

read_open :
    (p : PipeCb) (r : ℕ) (buf : ℕ → ℕ) (n : ℕ)
    → p.reader ≡ some r
    → pipe_read (some p) buf n ≡ read_resume p buf n
unfolding pipe_read
read_open p r buf n e = rw e refl

module _ {a b v w : ℕ} {s : Sockets} (c : IsConnected a b v w s) (p : PipeCb) where
  shuts_write :
      (r : ℕ)
      → s.pipes v ≡ some p
      → p.reader ≡ some r
      → shut_socket 2 (some a) s
        ≡ some (pos 0, pipe_cond v has_data ∷ [], set_pipe v (some (without_writer p)) s)
  unfolding shut_peer close_writer pipe_writer_close
  shuts_write r e f = peer_shuts c.one 2 ∙ rw (e, f) refl

  write_refused :
      (r : ℕ) (s' : Sockets)
      → IsPeer a b v w s'
      → s'.pipes v ≡ some (without_writer p)
      → p.reader ≡ some r
      → (buf : ℕ → ℕ) (n : ℕ)
      → outcome (socket_write (some a) buf n s') ≡ refusal (without_writer p) buf
  unfolding pipe_write
  write_refused r s' i e f buf n =
      rw (peer_writes i buf n)
        (resumed v (without_writer p) (λ q. pipe_write (some q) buf n) s' e ∙ rw f refl)

  -- Of two connected sockets, where the pipe from the first to the second is valid and has its
  -- reader, `ShutDown` of the first for writing returns 0 and announces it to readers; then a write
  -- at the first returns -1, and a read at the second never sleeps: it drains the bytes that are
  -- left and then returns 0.
  pub shut_down_write :
      (r : ℕ)
      → s.pipes v ≡ some p
      → IsValid p
      → p.reader ≡ some r
      → (s' : Sockets) × (shut_socket 2 (some a) s ≡ some (pos 0, pipe_cond v has_data ∷ [], s'))
        × ((buf : ℕ → ℕ) (n : ℕ)
            → outcome (socket_write (some a) buf n s') ≡ refusal (without_writer p) buf)
        × ((buf : ℕ → ℕ) (n : ℕ)
            → (o : Outcome) × (outcome (socket_read (some b) buf n s') ≡ some o)
              × (seen o ≡ read (record { reading = true; writing = false; bytes = contents p }) n))
  shut_down_write r e valid f =
      let q = without_writer p in
      let s' = set_pipe v (some q) s in
      let c' = IsConnected-congr s' refl c in
      let stored = update_self s.pipes v (some q) in
      let same : IsValid q = record {
        storage = valid.storage;
        reads = valid.reads;
        writes = valid.writes;
        used = valid.used;
        ahead = valid.ahead;
      } in
      (
        s',
        shuts_write r e f,
        write_refused r s' c'.one stored f,
        λ buf n. (
          read_resume q buf n,
          rw (peer_reads c'.other buf n) (
              resumed v q (λ x. pipe_read (some x) buf n) s' stored
              ∙ ap some (read_open q r buf n f)),
          read_resume_refines q buf n same ∙ rw f refl,
        ),
      )

module _ {a b v w : ℕ} {s : Sockets} (c : IsConnected a b v w s) (p : PipeCb) where
  shuts_read :
      (r : ℕ)
      → s.pipes w ≡ some p
      → p.writer ≡ some r
      → shut_socket 1 (some a) s
        ≡ some (pos 0, pipe_cond w has_space ∷ [], set_pipe w (some (without_reader p)) s)
  unfolding shut_peer close_reader pipe_reader_close
  shuts_read r e f = peer_shuts c.one 1 ∙ rw (e, f) refl

  -- Of two connected sockets, where the pipe from the second to the first has its writer, `ShutDown` of
  -- the first for reading returns 0 and announces it to writers; then a read at the first and a write
  -- at the second return -1.
  pub shut_down_read :
      (r : ℕ)
      → s.pipes w ≡ some p
      → p.writer ≡ some r
      → (s' : Sockets) × (shut_socket 1 (some a) s ≡ some (pos 0, pipe_cond w has_space ∷ [], s'))
        × ((buf : ℕ → ℕ) (n : ℕ)
            → outcome (socket_read (some a) buf n s') ≡ refusal (without_reader p) buf)
        × ((buf : ℕ → ℕ) (n : ℕ)
            → outcome (socket_write (some b) buf n s') ≡ refusal (without_reader p) buf)
  unfolding pipe_read pipe_write
  shut_down_read r e f =
      let q = without_reader p in
      let s' = set_pipe w (some q) s in
      let c' = IsConnected-congr s' refl c in
      let stored = update_self s.pipes w (some q) in
      (
        s',
        shuts_read r e f,
        (λ buf n.
            rw (peer_reads c'.one buf n) (resumed w q (λ x. pipe_read (some x) buf n) s' stored)),
        (λ buf n.
            rw (peer_writes c'.other buf n)
              (resumed w q (λ x. pipe_write (some x) buf n) s' stored)),
      )

-- A writer and a reader of one pipe are shut: the pipe is freed, and neither socket forgets it.
module _ {a b v w : ℕ} {s : Sockets} (c : IsConnected a b v w s) (p : PipeCb) where
  frees :
      (s1 : Sockets)
      → IsPeer b a w v s1
      → s1.pipes v ≡ some (without_writer p)
      → shut_socket 1 (some b) s1 ≡ some (pos 0, [], set_pipe v none s1)
  unfolding shut_peer close_reader pipe_reader_close
  frees s1 i e = peer_shuts i 1 ∙ rw e refl

  close_dangles :
      (s2 : Sockets) → IsPeer a b v w s2 → s2.pipes v ≡ none → socket_close (some a) s2 ≡ none
  unfolding socket_close close_peer close_writer
  close_dangles s2 i e = rw (i.found, i.joined, e) refl

  -- Of two connected sockets, where the pipe from the first to the second has its reader: after
  -- `ShutDown` of the first for writing and of the second for reading, both of which return 0, the
  -- pipe is freed, and a read at the second, a write at the first and the close of the first follow
  -- the dangling pointer.
  pub shut_both_ends :
      (r : ℕ)
      → s.pipes v ≡ some p
      → p.reader ≡ some r
      → (s1 : Sockets) × (s2 : Sockets) × (shut_socket 2 (some a) s
          ≡ some (pos 0, pipe_cond v has_data ∷ [], s1))
        × (shut_socket 1 (some b) s1 ≡ some (pos 0, [], s2))
        × ((buf : ℕ → ℕ) (n : ℕ) → socket_read (some b) buf n s2 ≡ none)
        × ((buf : ℕ → ℕ) (n : ℕ) → socket_write (some a) buf n s2 ≡ none)
        × (socket_close (some a) s2 ≡ none)
  shut_both_ends r e f =
      let s1 = set_pipe v (some (without_writer p)) s in
      let s2 = set_pipe v none s1 in
      let c1 = IsConnected-congr s1 refl c in
      let c2 = IsConnected-congr s2 refl c in
      let freed : s2.pipes v ≡ none = update_self s1.pipes v none in
      (
        s1,
        s2,
        shuts_write c p r e f,
        frees s1 c1.other (update_self s.pipes v _),
        (λ buf n. rw (peer_reads c2.other buf n) (rw freed refl)),
        (λ buf n. rw (peer_writes c2.one buf n) (rw freed refl)),
        close_dangles s2 c2.one freed,
      )
