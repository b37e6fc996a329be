-- ===== src/Socket/Join.antt =====
-- kernel_socket.c, the two pipes that connect two sockets.
use tiny_os_project.Prelude.{
  ℕ, ◌≡◌, ◌≢◌, refl, sym, ap, ◌∙◌, Option, some, List, [], arith, length, update, update_self,
  update_other, ℕ_discrete,
}
use tiny_os_project.Pipe.{PipeCb, pipe_buffer_size, acquire_pipe_cb}
use tiny_os_project.Pipe.Ring.{IsValid}
use tiny_os_project.Pipe.History.{alive}
use tiny_os_project.Socket.{peer, SocketCb, Sockets, set_socket}
use tiny_os_project.Socket.Connect.{NewBlocks, join_peers}
use tiny_os_project.Socket.Stream.{IsPeer, IsConnected, Traffic, IsStream}

abbrev pub silent : Sockets → Traffic
silent s = record { state = s; sent = []; received = [] }

pub acquired-IsValid :
    (r w : Option ℕ) (buf : List ℕ)
    → length buf ≡ pipe_buffer_size
    → IsValid (acquire_pipe_cb r w buf)
unfolding acquire_pipe_cb
acquired-IsValid r w buf size = record {
  storage = size;
  reads = omega arith;
  writes = omega arith;
  used = omega arith;
  ahead = refl;
}

-- A new pipe between two connected sockets.
new_pipe-IsStream :
    (a b v w : ℕ) (s : Sockets) (reader writer : Option ℕ) (buf : List ℕ)
    → IsConnected a b v w s
    → length buf ≡ pipe_buffer_size
    → s.pipes v ≡ some (acquire_pipe_cb reader writer buf)
    → IsStream a b v w (silent s)
unfolding acquire_pipe_cb
new_pipe-IsStream a b v w s reader writer buf c size e = record {
  connected = c;
  in_order =
      alive (acquire_pipe_cb reader writer buf) e (acquired-IsValid reader writer buf size) refl;
}

-- A pipe with both of its ends, the `FCB *` of its reader and of its writer.
pub record IsOpenPipe (w reader writer : ℕ) (s : Sockets) : Type 0 where
  pub pipe : PipeCb
  pub found : s.pipes w ≡ some pipe
  pub reads : pipe.reader ≡ some reader
  pub writes : pipe.writer ≡ some writer

-- Both directions between the socket at `a`, of the file block `f`, and the one at `b`, of `g`: open at both
-- ends, with nothing on the way.
pub record BothStreams (a f b g v w : ℕ) (s : Sockets) : Type 0 where
  pub forth : IsStream a b v w (silent s)
  pub back : IsStream b a w v (silent s)
  pub forth_ends : IsOpenPipe v g f s
  pub back_ends : IsOpenPipe w f g s

new_pipe-IsOpenPipe :
    (w reader writer : ℕ) (buf : List ℕ) (s : Sockets)
    → s.pipes w ≡ some (acquire_pipe_cb (some reader) (some writer) buf)
    → IsOpenPipe w reader writer s
unfolding acquire_pipe_cb
new_pipe-IsOpenPipe w reader writer buf s e = record {
  pipe = acquire_pipe_cb (some reader) (some writer) buf;
  found = e;
  reads = refl;
  writes = refl;
}

swapped : {a b v w : ℕ} {s : Sockets} → IsConnected a b v w s → IsConnected b a w v s
swapped c = record { one = c.other; other = c.one; two_pipes = λ e. c.two_pipes (sym e) }

-- Every block is still there, with its file block.
abbrev pub Kept : (ℕ → Option SocketCb) → (ℕ → Option SocketCb) → Type 0
Kept m m' =
    (a : ℕ) (x : SocketCb) → m a ≡ some x → (y : SocketCb) × (m' a ≡ some y) × (y.fcb ≡ x.fcb)

pub update-Kept :
    (m : ℕ → Option SocketCb) (p : ℕ) (v : SocketCb)
    → ((x : SocketCb) → m p ≡ some x → v.fcb ≡ x.fcb)
    → Kept m (update m p (some v))
update-Kept m p v same a x e = elim (ℕ_discrete a p) [
  | yes h ↦ (v, ap (update m p (some v)) h ∙ update_self m p (some v), same x (ap m (sym h) ∙ e))
  | no h ↦ (x, update_other m p a _ h ∙ e, refl)
]

pub one_fcb : (o : Option SocketCb) (b x : SocketCb) → o ≡ some b → o ≡ some x → b.fcb ≡ x.fcb
one_fcb o b x e h = let same : b ≡ x = cc (e, h) in ap (λ c. c.fcb) same

module _ (new : NewBlocks) (c f : ℕ) (s : Sockets) where
  pub join_peers-BothStreams :
      (cb nb : SocketCb)
      → s.sockets c ≡ some cb
      → s.sockets new.socket ≡ some nb
      → new.socket ≢ c
      → new.pipe1 ≢ new.pipe2
      → length new.buffer1 ≡ pipe_buffer_size
      → length new.buffer2 ≡ pipe_buffer_size
      → (s' : Sockets) × (join_peers new.socket c new.pipe1 new.pipe2 new.buffer1 new.buffer2 f s
          ≡ some s')
        × (s'.requests ≡ s.requests)
        × Kept s.sockets s'.sockets
        × BothStreams new.socket f c cb.fcb new.pipe1 new.pipe2 s'
  unfolding join_peers
  join_peers-BothStreams cb nb found_c found_n distinct pipes size1 size2 =
      let s0 : Sockets =
        set_socket c (record cb { state = peer new.socket new.pipe2 new.pipe1 }) s in
      let s1 : Sockets =
        set_socket new.socket (record nb { state = peer c new.pipe1 new.pipe2 }) s0 in
      let pipes1 =
        update s.pipes new.pipe1 (some (acquire_pipe_cb (some cb.fcb) (some f) new.buffer1)) in
      let s' : Sockets = record s1 {
        pipes = update pipes1 new.pipe2 (some (acquire_pipe_cb (some f) (some cb.fcb) new.buffer2));
      } in
      let joined : IsConnected new.socket c new.pipe1 new.pipe2 s' = record {
        one = record {
          block = record nb { state = peer c new.pipe1 new.pipe2 };
          found = update_self s0.sockets new.socket _;
          joined = refl;
        };
        other = record {
          block = record cb { state = peer new.socket new.pipe2 new.pipe1 };
          found =
              update_other s0.sockets new.socket c _ (λ e. distinct (sym e))
              ∙ update_self s.sockets c _;
          joined = refl;
        };
        two_pipes = pipes;
      } in
      let kept : Kept s.sockets s'.sockets = λ a x e.
        let (y, h, q) =
          update-Kept s.sockets c (record cb { state = peer new.socket new.pipe2 new.pipe1 })
            (λ z g. one_fcb (s.sockets c) cb z found_c g) a x e in
        let (y', h', q') =
          update-Kept s0.sockets new.socket (record nb { state = peer c new.pipe1 new.pipe2 })
            (λ z g.
              one_fcb (s0.sockets new.socket) nb z
                (update_other s.sockets c new.socket _ distinct ∙ found_n) g)
            a y h in
        (y', h', q' ∙ q) in
      let first =
        update_other pipes1 new.pipe2 new.pipe1 _ pipes ∙ update_self s.pipes new.pipe1 _ in
      let second = update_self pipes1 new.pipe2 _ in
      (
        s',
        rw (found_c, found_n, join_peers) refl,
        refl,
        kept,
        record {
          forth =
              new_pipe-IsStream _ _ _ _ s' (some cb.fcb) (some f) new.buffer1 joined size1 first;
          back =
              new_pipe-IsStream _ _ _ _ s' (some f) (some cb.fcb) new.buffer2 (swapped joined) size2
                second;
          forth_ends = new_pipe-IsOpenPipe new.pipe1 cb.fcb f new.buffer1 s' first;
          back_ends = new_pipe-IsOpenPipe new.pipe2 f cb.fcb new.buffer2 s' second;
        },
      )

-- The counter of a socket plays no part in its connection.
module _ (l : ℕ) (b : SocketCb) (s : Sockets) (n : ℕ) (e : s.sockets l ≡ some b) where
  IsPeer-counter :
      {a o v w : ℕ} → IsPeer a o v w s → IsPeer a o v w (set_socket l (record b { refcount = n }) s)
  IsPeer-counter {a = a} i = elim (ℕ_discrete a l) [
    | yes h ↦ record {
      block = record b { refcount = n };
      found = ground (arith, h);
      joined = ground (arith, h, e, i.found, i.joined);
    }
    | no h ↦ record {
      block = i.block;
      found = update_other s.sockets l a _ h ∙ i.found;
      joined = i.joined;
    }
  ]

  pub IsStream-counter :
      {a o v w : ℕ}
      → IsStream a o v w (silent s)
      → IsStream a o v w (silent (set_socket l (record b { refcount = n }) s))
  IsStream-counter i = record {
    connected = record {
      one = IsPeer-counter i.connected.one;
      other = IsPeer-counter i.connected.other;
      two_pipes = i.connected.two_pipes;
    };
    in_order = i.in_order;
  }

  pub IsOpenPipe-counter :
      {w reader writer : ℕ}
      → IsOpenPipe w reader writer s
      → IsOpenPipe w reader writer (set_socket l (record b { refcount = n }) s)
  IsOpenPipe-counter i = record {
    pipe = i.pipe;
    found = i.found;
    reads = i.reads;
    writes = i.writes;
  }
