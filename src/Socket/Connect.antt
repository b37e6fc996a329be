-- ===== src/Socket/Connect.antt =====
-- kernel_socket.c, `sys_Connect` and `sys_Accept`.
use tiny_os_project.Prelude.{
  ℕ, ◌+◌, Bool, true, false, not, ◌&&◌, ◌||◌, Option, none, some, List, [], ◌∷◌, ltb, ◌==◌,
  if◌then◌else◌, update,
}
use tiny_os_project.Prelude.Int.{ℤ, pos, negsuc, minus_one, in_range, to_nat}
use tiny_os_project.Streams.{Kernel, max_fileid, fid_entry, get_fcb}
use tiny_os_project.Pipe.{acquire_pipe_cb}
use tiny_os_project.Socket.{
  SocketState, listener, peer, SocketCb, Sockets, ◌>>=◌, is_unbound, is_listener, set_socket,
  refcount_up, refcount_down, port_entry, max_port, sys_socket,
}

-- Where `sys_Connect` stands: back, or asleep on `req_available` of the listener, which it has signalled,
-- with the addresses of its socket, its request and the listener.
pub data Connecting : Type 0 where
  returns : ℤ → Kernel Sockets → Connecting
  sleeps : (socket request listening : ℕ) → Kernel Sockets → Connecting

-- The requests that stand for a node of a call that has returned cannot be followed.
abbrev pub front_pending : List ℕ → Sockets → Bool
front_pending [] s = true
front_pending (r ∷ q) s = (s.requests r).pending

abbrev pub queue_of : SocketState → Option (List ℕ)
queue_of (listener q) = some q
queue_of _ = none

-- `rlist_push_front` on the queue of a listener writes into its first node.
abbrev pub push_request : (r l : ℕ) → Sockets → Option Sockets
push_request r l s = do
  b ← s.sockets l
  q ← queue_of b.state
  if front_pending q s then some (set_socket l (record b { state = listener (r ∷ q) }) s) else none

-- The part of `sys_Connect` from the request on, for the socket `a` and the listener `l`.
unfoldable pub make_request : (a r l : ℕ) → Sockets → Option Sockets
make_request a r l s = do
  b ← s.sockets a
  let s1 = set_socket a (refcount_up b) s
  push_request r l (record s1 {
    requests = update s1.requests r (record { admitted = false; peer_socket = a; pending = true });
  })

-- From the lookup of the caller's socket on.
unfoldable pub connect_to : Option ℕ → (r l : ℕ) → Kernel Sockets → Option Connecting
unfolding make_request
connect_to none r l k = some (returns minus_one k)
connect_to (some a) r l k = do
  b ← k.objects.sockets a
  if not (is_unbound b.state)
      then some (returns minus_one k)
      else do s ← make_request a r l k.objects; some (sleeps a r l (record k { objects = s }))

abbrev pub stream_of : Option ℕ → Kernel Sockets → Option ℕ
stream_of none k = none
stream_of (some f) k = (k.ft f).streamobj

-- `listening` is `Port_Map[port]`. Both a closed identifier and a NULL stream object give -1.
unfoldable pub connect_port : (sock : ℤ) → Option ℕ → (r : ℕ) → Kernel Sockets → Option Connecting
unfolding connect_to
connect_port sock none r k = some (returns minus_one k)
connect_port sock (some l) r k = do
  b ← k.objects.sockets l
  if not (is_listener b.state)
      then some (returns minus_one k)
      else connect_to (stream_of (get_fcb sock k) k) r l k

-- `r` is the address of the new request.
unfoldable pub sys_connect : (sock port : ℤ) → (r : ℕ) → Kernel Sockets → Option Connecting
unfolding connect_port
sys_connect sock port r k =
    if not (in_range (max_fileid + 1) sock) || not (in_range (max_port + 1) port)
    then some (returns minus_one k)
    else do entry ← port_entry (to_nat port) k.objects; connect_port sock entry r k

-- `sys_Connect` after its wait; `signalled` is the result of `kernel_timedwait`.
unfoldable pub connect_resume : (signalled : Bool) → (a r : ℕ) → Sockets → Option (ℤ × Sockets)
connect_resume signalled a r s = do
  b ← s.sockets a
  let s1 = set_socket a (refcount_down b) s
  some (
    if signalled && (s.requests r).admitted then pos 0 else minus_one,
    record s1 { requests = update s1.requests r (record (s1.requests r) { pending = false }) },
  )

-- Where `sys_Accept` stands: back, with the request whose `connected_cv` it signalled, or asleep on
-- `req_available` of the listener.
pub data Accepting : Type 0 where
  returns : ℤ → Option ℕ → Kernel Sockets → Accepting
  sleeps : (listening : ℕ) → Kernel Sockets → Accepting

-- The end of a call on the listener `l`.
abbrev pub leave_accept : ℤ → Option ℕ → (l : ℕ) → Kernel Sockets → Option Accepting
leave_accept r woken l k = do
  b ← k.objects.sockets l
  some (returns r woken (record k { objects = set_socket l (refcount_down b) k.objects }))

-- The two sockets `n` and `c` become the ends of two pipes, at the addresses `w1` and `w2`; the buffers
-- are what `xmalloc` returns.
unfoldable pub join_peers :
    (n c w1 w2 : ℕ) → (buf1 buf2 : List ℕ) → (f : ℕ) → Sockets → Option Sockets
join_peers n c w1 w2 buf1 buf2 f s = do
  cb ← s.sockets c
  nb ← s.sockets n
  let s1 =
      set_socket n (record nb { state = peer c w1 w2 })
        (set_socket c (record cb { state = peer n w2 w1 }) s)
  let pipes1 = update s1.pipes w1 (some (acquire_pipe_cb (some cb.fcb) (some f) buf1))
  some (record s1 { pipes = update pipes1 w2 (some (acquire_pipe_cb (some f) (some cb.fcb) buf2)) })

-- Addresses and buffers of the blocks that `sys_Accept` allocates.
pub record NewBlocks : Type 0 where
  pub socket : ℕ
  pub pipe1 : ℕ
  pub pipe2 : ℕ
  pub buffer1 : List ℕ
  pub buffer2 : List ℕ

-- `sys_Accept` behind its call of `sys_Socket`, for the request `r` on the listener `l`.
unfoldable pub finish_accept : NewBlocks → (r l : ℕ) → ℤ × Kernel Sockets → Option Accepting
unfolding join_peers
finish_accept new r l (negsuc x, k) = leave_accept minus_one none l k
finish_accept new r l (pos fid, k) = do
  f ← get_fcb (pos fid) k
  n ← (k.ft f).streamobj
  s ←
      join_peers n (k.objects.requests r).peer_socket new.pipe1 new.pipe2 new.buffer1 new.buffer2 f
        k.objects
  leave_accept (pos fid) (some r) l (record k { objects = s })

-- The first request leaves the queue; `rlist_pop_front` writes into its node and the next one.
unfoldable pub admit : NewBlocks → (l : ℕ) → SocketCb → List ℕ → Kernel Sockets → Option Accepting
unfolding finish_accept
admit new l b [] k = none
admit new l b (r ∷ rest) k =
    let s = k.objects in
    if not (s.requests r).pending || not (front_pending rest s)
    then none
    else let s1 = set_socket l (record b { state = listener rest }) s in
      let s2 = record s1 {
        requests = update s1.requests r (record (s1.requests r) { admitted = true });
      } in
      finish_accept new r l (sys_socket new.socket (pos b.port) (record k { objects = s2 }))

abbrev pub is_unset {ℓ} : {A : Type ℓ} → Option A → Bool
is_unset none = true
is_unset (some a) = false

abbrev pub is_empty : List ℕ → Bool
is_empty [] = true
is_empty (r ∷ q) = false

-- `sys_Accept` from the test of its loop on.
unfoldable pub accept_resume : NewBlocks → (l : ℕ) → Kernel Sockets → Option Accepting
unfolding admit
accept_resume new l k = do
  b ← k.objects.sockets l
  q ← queue_of b.state
  entry ← port_entry b.port k.objects
  if is_unset entry
      then leave_accept minus_one none l k
      else if is_empty q
      then some (sleeps l k)
      else admit new l b q k

-- On the stream object of the argument.
unfoldable pub accept_on : NewBlocks → Option ℕ → Kernel Sockets → Option Accepting
unfolding accept_resume
accept_on new none k = some (returns minus_one none k)
accept_on new (some l) k = do
  b ← k.objects.sockets l
  if ltb max_port b.port || b.port == 0
      then some (returns minus_one none k)
      else if not (is_listener b.state)
      then some (returns minus_one none k)
      else accept_resume new l (record k { objects = set_socket l (refcount_up b) k.objects })

-- The identifier is not tested against the bounds of the file table.
unfoldable pub sys_accept : NewBlocks → ℤ → Kernel Sockets → Option Accepting
unfolding accept_on
sys_accept new lsock k =
    if not (in_range max_fileid lsock)
    then none
    else do f ← fid_entry k.fidt (to_nat lsock); accept_on new (k.ft f).streamobj k
