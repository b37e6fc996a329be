-- ===== src/Socket/Accept.antt =====
-- kernel_socket.c, the connection that `sys_Accept` makes.
use tiny_os_project.Prelude.{
  ℕ, ◌<◌, ◌≡◌, ◌≢◌, refl, ap, ◌∙◌, true, false, Option, none, some, List, ◌∷◌, ltb, arith, length,
  update, update_self, update_other,
}
use tiny_os_project.Prelude.Int.{ℤ, pos, minus_one}
use tiny_os_project.Streams.{Kernel, max_fileid, get_fcb}
use tiny_os_project.Pipe.{pipe_buffer_size}
use tiny_os_project.Socket.{listener, unbound, SocketCb, Sockets, set_socket, max_port, sys_socket}
use tiny_os_project.Socket.Bind.{IsFull, Bound, no_room, bound, sys_socket-Bound}
use tiny_os_project.Socket.Connect.{
  Accepting, NewBlocks, join_peers, leave_accept, finish_accept, admit, accept_resume,
  front_pending,
}
use tiny_os_project.Socket.Connect
use tiny_os_project.Socket.Join.{
  BothStreams, Kept, update-Kept, join_peers-BothStreams, IsStream-counter, IsOpenPipe-counter,
  one_fcb,
}

-- A listener, of a valid port, with a request of a `Connect` that waits.
pub record IsServing (new : NewBlocks) (l : ℕ) (b : SocketCb) (r : ℕ) (rest : List ℕ)
    (cb : SocketCb) (k : Kernel Sockets) : Type 0 where
  pub ids : length k.fidt ≡ max_fileid
  pub listens : k.objects.sockets l ≡ some b
  pub queued : b.state ≡ listener (r ∷ rest)
  pub port_number : b.port < max_port
  pub held : Connect.is_unset (k.objects.port_map b.port) ≡ false
  pub waits : (k.objects.requests r).pending ≡ true
  pub others_wait : front_pending rest k.objects ≡ true
  pub asks : k.objects.sockets (k.objects.requests r).peer_socket ≡ some cb
  pub unused : k.objects.sockets new.socket ≡ none
  pub two_pipes : new.pipe1 ≢ new.pipe2
  pub size1 : length new.buffer1 ≡ pipe_buffer_size
  pub size2 : length new.buffer2 ≡ pipe_buffer_size

-- The ways in which a call that serves the request `r` of the socket `c`, of the file block `g`, can end.
pub data Served (new : NewBlocks) (r c g : ℕ) (k : Kernel Sockets) : Option Accepting → Type 0 where
  no_stream :
      (k' : Kernel Sockets)
      → IsFull k
      → Served new r c g k (some (Connect.returns minus_one none k'))
  served :
      (fid f : ℕ) (k' : Kernel Sockets)
      → get_fcb (pos fid) k' ≡ some f
      → (k'.ft f).streamobj ≡ some new.socket
      → (k'.objects.requests r).admitted ≡ true
      → BothStreams new.socket f c g new.pipe1 new.pipe2 k'.objects
      → Served new r c g k (some (Connect.returns (pos fid) (some r) k'))

module _ (new : NewBlocks) (l : ℕ) (b : SocketCb) (r : ℕ) (rest : List ℕ) (cb : SocketCb)
    (k : Kernel Sockets) (i : IsServing new l b r rest cb k) where
  asking : ℕ
  asking = (k.objects.requests r).peer_socket

  admitting : Kernel Sockets
  admitting =
      let s1 : Sockets = set_socket l (record b { state = listener rest }) k.objects in
      record k {
        objects = record s1 {
          requests = update s1.requests r (record (s1.requests r) { admitted = true });
        };
      }

  still : Kept k.objects.sockets admitting.objects.sockets
  unfolding admitting
  still =
      update-Kept k.objects.sockets l (record b { state = listener rest })
        (λ x e. one_fcb (k.objects.sockets l) b x i.listens e)

  distinct : (a : ℕ) (x : SocketCb) → k.objects.sockets a ≡ some x → new.socket ≢ a
  distinct a x e h = absurd (cc (i.unused, h, e))

  bound_socket : ℕ → SocketCb
  bound_socket f = record { refcount = 0; fcb = f; state = unbound; port = b.port }

  asked :
      admitting.objects.requests r
      ≡ record { admitted = true; peer_socket = asking; pending = true }
  unfolding admitting asking
  asked = ground (arith, i.waits)

  asks_lem : k.objects.sockets asking ≡ some cb
  unfolding asking
  asks_lem = i.asks

  same_ids : length k.fidt ≡ max_fileid → length admitting.fidt ≡ max_fileid
  unfolding admitting
  same_ids e = e

  full : IsFull admitting → IsFull k
  unfolding admitting
  full h = h

  empty : admitting.objects.sockets new.socket ≡ none
  unfolding admitting
  empty = update_other k.objects.sockets l new.socket _ (distinct l b i.listens) ∙ i.unused

  -- The rest of the call, behind `sys_Socket`.
  finish-Served :
      (out : ℤ × Kernel Sockets)
      → Bound new.socket b.port admitting out
      → Served new r asking cb.fcb k (finish_accept new r l out)
  unfolding finish_accept bound_socket get_fcb
  finish-Served _ (no_room h) = let (x, e, q) = still l b i.listens in rw e (no_stream _ (full h))
  finish-Served _ (bound fid f k' entry stream same) =
      let s : Sockets = set_socket new.socket (bound_socket f) admitting.objects in
      let add =
        update-Kept admitting.objects.sockets new.socket (bound_socket f)
          (λ x e. absurd (cc (empty, e))) in
      let (c, e, q) = still asking cb asks_lem in
      let (c', e', q') = add asking c e in
      let (s', joined, requests, kept, streams) =
        join_peers-BothStreams new asking f s c' (bound_socket f) e'
          (update_self admitting.objects.sockets new.socket _) (distinct asking cb asks_lem)
          i.two_pipes i.size1 i.size2 in
      let (y, h, o) = still l b i.listens in
      let (y', h', o') = add l y h in
      let (z, g, o'') = kept l y' h' in
      let ends : c'.fcb ≡ cb.fcb = q' ∙ q in
      rw (entry, stream, same, asked, joined, g)
        (served fid f _ entry stream
          (ap (λ m. (m r).admitted) requests ∙ ap (λ q. q.admitted) asked)
          record {
            forth = IsStream-counter l z s' _ g streams.forth;
            back = IsStream-counter l z s' _ g streams.back;
            forth_ends = IsOpenPipe-counter l z s' _ g (rw ends at streams.forth_ends);
            back_ends = IsOpenPipe-counter l z s' _ g (rw ends at streams.back_ends);
          })

  opened_lem :
      accept_resume new l k ≡ finish_accept new r l (sys_socket new.socket (pos b.port) admitting)
  unfolding accept_resume admit admitting
  opened_lem =
      let inside : ltb b.port max_port ≡ true = ground (arith, i.port_number) in
      rw (i.listens, i.queued, inside, i.held, i.waits, i.others_wait) refl

  -- `Accept` of a listener of a legal port below MAX_PORT that holds its port and has a request,
  -- where the `Connect` calls that made this request and the next wait and the new blocks are
  -- fresh: it returns -1 where the process has no free identifier or the file table no free block;
  -- else it returns an identifier of a new socket, admits the request, and connects the new socket
  -- and the one that asked by an empty pipe in each direction, each open with the file block of the
  -- one as its reader and that of the other as its writer.
  pub accept_resume-Served :
      Served new r (k.objects.requests r).peer_socket cb.fcb k (accept_resume new l k)
  unfolding asking
  accept_resume-Served = rw (opened_lem) (
      finish-Served (sys_socket new.socket (pos b.port) admitting) (
        sys_socket-Bound new.socket b.port admitting (same_ids i.ids)
          (omega (arith, i.port_number))))
