-- ===== src/Socket.antt =====
-- kernel_socket.c and kernel_socket.h, sockets over the streams and the pipes. A `Socket_CB *`, a
-- `Pipe_CB *` and a `connection_request *` are addresses. `none` as the result of a call means that the
-- code follows a pointer that leads to no block of the kind (NULL, freed, or a block of another kind), or
-- an index behind an array. A call that sleeps is cut at its sleep.
pub mod Join
pub mod Accept
pub mod Bind
pub mod Connect
pub mod Transfer
pub mod Ports
pub mod Stream
pub mod Shutdown
pub mod Tests
use tiny_os_project.Prelude.{
  ℕ, zero, suc, ◌+◌, ◌-◌, ◌%◌, ◌^◌, Bool, true, false, not, ◌&&◌, ◌||◌, Option, none, some, List,
  [], ◌∷◌, ltb, ◌==◌, if◌then◌else◌, update,
}
use tiny_os_project.Prelude.Int.{ℤ, pos, minus_one, in_range, to_nat}
use tiny_os_project.Devices.{socket_file_ops}
use tiny_os_project.Streams.{Kernel, max_fileid, fcb_reserve, get_fcb}
use tiny_os_project.Pipe.{PipeCb}

abbrev pub max_port : ℕ
max_port = 1023

-- The type of a socket with the member of the union that goes with it: the code sets the two together.
-- `listener` has the requests of its queue; `peer` has the other socket, `write_pipe` and `read_pipe`.
pub data SocketState : Type 0 where
  unbound : SocketState
  listener : List ℕ → SocketState
  peer : (other write_pipe read_pipe : ℕ) → SocketState

-- The port is one that `sys_Socket` let pass.
pub record SocketCb : Type 0 where
  pub refcount : ℕ
  pub fcb : ℕ
  pub state : SocketState
  pub port : ℕ

-- `pending` says whether the `Connect` that made the request has not returned: the node that stands for
-- the request in the listener's queue is a local variable of that call.
pub record Request : Type 0 where
  pub admitted : Bool
  pub peer_socket : ℕ
  pub pending : Bool

-- The blocks in memory, and `Port_Map`.
pub record Sockets : Type 0 where
  pub sockets : ℕ → Option SocketCb
  pub pipes : ℕ → Option PipeCb
  pub requests : ℕ → Request
  pub port_map : ℕ → Option ℕ

infixl 5 ◌>>=◌
abbrev pub ◌>>=◌ : {A B : Type 0} → Option A → (A → Option B) → Option B
none >>= f = none
some a >>= f = f a

abbrev pub is_unbound : SocketState → Bool
is_unbound unbound = true
is_unbound _ = false

abbrev pub is_listener : SocketState → Bool
is_listener (listener q) = true
is_listener _ = false

abbrev pub set_socket : ℕ → SocketCb → Sockets → Sockets
set_socket a b s = record s { sockets = update s.sockets a (some b) }

-- `++` and `--` of an `unsigned int`.
abbrev pub refcount_up : SocketCb → SocketCb
refcount_up b = record b { refcount = (b.refcount + 1) % 2 ^ 32 }

abbrev pub refcount_down : SocketCb → SocketCb
refcount_down b = record b { refcount = (b.refcount + (2 ^ 32 - 1)) % 2 ^ 32 }

-- `Port_Map[port]`, of `MAX_PORT` entries.
abbrev pub port_entry : ℕ → Sockets → Option (Option ℕ)
port_entry port s = if ltb port max_port then some (s.port_map port) else none

-- The branch of success of `sys_Socket`; the arrays have one element.
abbrev pub bind_socket :
    (new port : ℕ) → Option (List ℕ × List ℕ) → Kernel Sockets → ℤ × Kernel Sockets
bind_socket new port (some (fid ∷ _, f ∷ _)) k = (
  pos fid,
  record k {
    ft = update k.ft f (record (k.ft f) { streamobj = some new; streamfunc = socket_file_ops });
    objects =
        set_socket new (record { refcount = 0; fcb = f; state = unbound; port = port }) k.objects;
  },
)
bind_socket new port _ k = (minus_one, k)

-- `new` is the address that `xmalloc` returns.
unfoldable pub sys_socket : (new : ℕ) → ℤ → Kernel Sockets → ℤ × Kernel Sockets
sys_socket new port k =
    if not (in_range (max_port + 1) port)
    then (minus_one, k)
    else let (reserved, k') = fcb_reserve 1 k in bind_socket new (to_nat port) reserved k'

-- Whether a port has a socket that is not unbound.
abbrev pub is_taken : Option ℕ → Sockets → Option Bool
is_taken none s = some false
is_taken (some l) s = do b ← s.sockets l; some (not (is_unbound b.state))

-- `sys_Listen` on the stream object of its argument.
unfoldable pub listen_on : Option ℕ → Sockets → Option (ℤ × Sockets)
listen_on none s = some (minus_one, s)
listen_on (some a) s = do
  b ← s.sockets a
  if not (is_unbound b.state) || b.port == 0 then some (minus_one, s) else do
    entry ← port_entry b.port s
    taken ← is_taken entry s
    some (
        if taken then (minus_one, s) else (
          pos 0,
          record (set_socket a (record b { state = listener [] }) s) {
            port_map = update s.port_map b.port (some a);
          },
        ))

-- The call reads the stream object before it tests the block against NULL.
unfoldable pub sys_listen : ℤ → Kernel Sockets → Option (ℤ × Kernel Sockets)
unfolding listen_on
sys_listen sock k = if not (in_range (max_fileid + 1) sock) then some (minus_one, k) else do
  f ← get_fcb sock k
  (r, s) ← listen_on (k.ft f).streamobj k.objects
  some (r, record k { objects = s })
