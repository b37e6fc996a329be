-- ===== src/Socket/Transfer.antt =====
-- kernel_socket.c, `sys_ShutDown` and the operations of a socket's stream.
use tiny_os_project.Prelude.{
  ℕ, zero, ◌+◌, Bool, true, false, not, ◌&&◌, ◌||◌, Option, none, some, List, [], ◌∷◌, ◌++◌, ◌==◌,
  if◌then◌else◌, update,
}
use tiny_os_project.Prelude.Int.{ℤ, pos, minus_one, in_range}
use tiny_os_project.Streams.{Kernel, max_fileid, get_fcb}
use tiny_os_project.Pipe.{
  PipeCb, Cond, Outcome, pipe_read, pipe_write, pipe_reader_close, pipe_writer_close,
}
use tiny_os_project.Pipe
use tiny_os_project.Socket.{
  SocketState, unbound, listener, peer, SocketCb, Sockets, ◌>>=◌, port_entry,
}

-- The condition variables that a call broadcasts: those of the pipes, with the pipe, and `req_available`
-- of a listener.
pub data Wake : Type 0 where
  pipe_cond : ℕ → Cond → Wake
  req_available : ℕ → Wake

abbrev pub wakes_of : ℕ → List Cond → List Wake
wakes_of w [] = []
wakes_of w (c ∷ l) = pipe_cond w c ∷ wakes_of w l

abbrev pub set_pipe : ℕ → Option PipeCb → Sockets → Sockets
set_pipe w p s = record s { pipes = update s.pipes w p }

abbrev pub closed_end : ℕ → ℤ × Option PipeCb × List Cond → Sockets → ℤ × List Wake × Sockets
closed_end w (r, p, conds) s = (r, wakes_of w conds, set_pipe w p s)

-- `pipe_reader_close` and `pipe_writer_close` on the pipe at `w`.
unfoldable pub close_reader : ℕ → Sockets → Option (ℤ × List Wake × Sockets)
close_reader w s = do p ← s.pipes w; some (closed_end w (pipe_reader_close (some p)) s)

unfoldable pub close_writer : ℕ → Sockets → Option (ℤ × List Wake × Sockets)
close_writer w s = do p ← s.pipes w; some (closed_end w (pipe_writer_close (some p)) s)

abbrev pub is_success : ℤ → Bool
is_success (pos zero) = true
is_success _ = false

-- Both results are 0 or -1, so the sum is 0 if both are.
unfoldable pub close_both : (write_pipe read_pipe : ℕ) → Sockets → Option (ℤ × List Wake × Sockets)
unfolding close_reader close_writer
close_both v w s = do
  (r1, told1, s1) ← close_reader w s
  (r2, told2, s2) ← close_writer v s1
  some (if is_success r1 && is_success r2 then pos 0 else minus_one, told1 ++ told2, s2)

-- The code reads the two pipes of any socket: of another than a peer they are other members of the union.
unfoldable pub shut_peer : (how : ℕ) → SocketState → Sockets → Option (ℤ × List Wake × Sockets)
unfolding close_both
shut_peer how (peer other v w) s =
    if how == 1
    then close_reader w s
    else if how == 2
    then close_writer v s
    else if how == 3
    then close_both v w s
    else some (pos 0, [], s)
shut_peer how _ s = if how == 1 || how == 2 || how == 3 then none else some (pos 0, [], s)

-- `sys_ShutDown` on the stream object of its argument.
unfoldable pub shut_socket : (how : ℕ) → Option ℕ → Sockets → Option (ℤ × List Wake × Sockets)
unfolding shut_peer
shut_socket how none s = some (minus_one, [], s)
shut_socket how (some a) s = do b ← s.sockets a; shut_peer how b.state s

-- 1, 2 and 3 are SHUTDOWN_READ, SHUTDOWN_WRITE and SHUTDOWN_BOTH.
pub sys_shut_down : ℤ → (how : ℕ) → Kernel Sockets → Option (ℤ × List Wake × Kernel Sockets)
unfolding shut_socket
sys_shut_down sock how k =
    if not (in_range (max_fileid + 1) sock)
    then some (minus_one, [], k)
    else elim (get_fcb sock k) [
      | none ↦ some (minus_one, [], k)
      | some f ↦ do
        (r, told, s) ← shut_socket how (k.ft f).streamobj k.objects
        some (r, told, record k { objects = s })
    ]

-- What a call leaves in the place of the pipe at `w`.
abbrev pub store_outcome : ℕ → Outcome → Sockets → Sockets
store_outcome w (Pipe.sleeps cond p) s = set_pipe w (some p) s
store_outcome w (Pipe.returns r p buf conds) s = set_pipe w p s

abbrev pub no_transfer : (ℕ → ℕ) → Outcome
no_transfer buf = Pipe.returns minus_one none buf []

abbrev pub read_peer : SocketState → (ℕ → ℕ) → ℕ → Sockets → Option (Outcome × Sockets)
read_peer (peer other v w) buf n s = do
  p ← s.pipes w
  let o = pipe_read (some p) buf n
  some (o, store_outcome w o s)
read_peer _ buf n s = some (no_transfer buf, s)

unfoldable pub socket_read : Option ℕ → (ℕ → ℕ) → ℕ → Sockets → Option (Outcome × Sockets)
socket_read ptr buf n s = do a ← ptr; b ← s.sockets a; read_peer b.state buf n s

abbrev pub write_peer : SocketState → (ℕ → ℕ) → ℕ → Sockets → Option (Outcome × Sockets)
write_peer (peer other v w) buf n s = do
  p ← s.pipes v
  let o = pipe_write (some p) buf n
  some (o, store_outcome v o s)
write_peer _ buf n s = some (no_transfer buf, s)

unfoldable pub socket_write : Option ℕ → (ℕ → ℕ) → ℕ → Sockets → Option (Outcome × Sockets)
socket_write ptr buf n s = do a ← ptr; b ← s.sockets a; write_peer b.state buf n s

abbrev pub socket_open : ℤ
socket_open = minus_one

-- `free` for a socket that nobody holds.
abbrev pub free_socket : (a : ℕ) → SocketCb → Sockets → Sockets
free_socket a b s = if b.refcount == 0 then record s { sockets = update s.sockets a none } else s

unfoldable pub close_peer : (a v w : ℕ) → SocketCb → Sockets → Option (ℤ × List Wake × Sockets)
close_peer a v w b s = do
  (r1, told1, s1) ← close_writer v s
  if not (is_success r1) then some (minus_one, told1, s1) else do
    (r2, told2, s2) ← close_reader w s1
    some (
        if not (is_success r2)
        then (minus_one, told1 ++ told2, s2)
        else (pos 0, told1 ++ told2, free_socket a b s2))

abbrev pub close_state :
    (a : ℕ) → SocketCb → SocketState → Sockets → Option (ℤ × List Wake × Sockets)
close_state a b unbound s = some (pos 0, [], free_socket a b s)
close_state a b (listener q) s = do
  entry ← port_entry b.port s
  let s1 = record s { port_map = update s.port_map b.port none }
  some (if b.refcount == 0 then pos 0 else minus_one, req_available a ∷ [], free_socket a b s1)
close_state a b (peer other v w) s = close_peer a v w b s

unfoldable pub socket_close : Option ℕ → Sockets → Option (ℤ × List Wake × Sockets)
unfolding close_peer
socket_close none s = some (minus_one, [], s)
socket_close (some a) s = do b ← s.sockets a; close_state a b b.state s
