-- ===== src/Socket/Tests.antt =====
-- The sockets 10 and 11, first with a request to the listener 12 and then connected by the pipes 20 and 21.
use tiny_os_project.Prelude.{
  ℕ, ◌≡◌, refl, arith, true, false, List, [], ◌∷◌, some, none, replicate, length-replicate, update,
}
use tiny_os_project.Prelude.Int.{pos}
use tiny_os_project.Devices.{nulldev_fops}
use tiny_os_project.Streams.{Kernel}
use tiny_os_project.Pipe.{PipeCb, Outcome, acquire_pipe_cb, has_data}
use tiny_os_project.Pipe.Ring.{IsValid, contents}
use tiny_os_project.Pipe.Fifo.{read}
use tiny_os_project.Pipe.Refine.{seen}
use tiny_os_project.Pipe.History.{alive}
use tiny_os_project.Socket.{SocketCb, SocketState, unbound, listener, peer, Sockets, listen_on}
use tiny_os_project.Socket.Connect.{NewBlocks, accept_resume}
use tiny_os_project.Socket.Transfer.{
  pipe_cond, shut_socket, socket_read, socket_write, socket_close,
}
use tiny_os_project.Socket.Join.{silent, acquired-IsValid}
use tiny_os_project.Socket.Accept.{IsServing, Served, accept_resume-Served}
use tiny_os_project.Socket.Ports.{PortsRight, Listens, listen_on-Listens}
use tiny_os_project.Socket.Ports.Runs.{
  PortCall, listen, close, request, port_run, port_run-PortsRight,
}
use tiny_os_project.Socket.Stream.{
  IsConnected, IsStream, PairCall, sends, receives, shuts, pair_run,
}
use tiny_os_project.Socket.Stream.Runs.{pair_run-IsStream}
use tiny_os_project.Socket.Shutdown.{
  shut_down_write, shut_both_ends, outcome, refusal, without_writer,
}

abbrev socket : ℕ → SocketState → SocketCb
socket fcb state = record { refcount = 1; fcb = fcb; state = state; port = 80 }

abbrev buffer : List ℕ
buffer = replicate 8192 0

abbrev pipe : (reader writer : ℕ) → PipeCb
pipe reader writer = acquire_pipe_cb (some reader) (some writer) buffer

abbrev connected : Sockets
connected = record {
  sockets =
      update (update (λ a. none) 10 (some (socket 3 (peer 11 20 21)))) 11
        (some (socket 4 (peer 10 21 20)));
  pipes = update (update (λ a. none) 20 (some (pipe 4 3))) 21 (some (pipe 3 4));
  requests = λ r. record { admitted = false; peer_socket = 0; pending = false };
  port_map = λ p. none;
}

connected-IsConnected : IsConnected 10 11 20 21 connected
connected-IsConnected = record {
  one = record { block = socket 3 (peer 11 20 21); found = refl; joined = refl };
  other = record { block = socket 4 (peer 10 21 20); found = refl; joined = refl };
  two_pipes = λ e. absurd (omega (arith, e));
}

pipe-IsValid : (reader writer : ℕ) → IsValid (pipe reader writer)
pipe-IsValid reader writer =
    acquired-IsValid (some reader) (some writer) buffer (length-replicate {A = ℕ} 8192 0)

silent-IsStream : IsStream 10 11 20 21 (silent connected)
unfolding acquire_pipe_cb
silent-IsStream = record {
  connected = connected-IsConnected;
  in_order = alive (pipe 4 3) refl (pipe-IsValid 4 3) refl;
}

abbrev traffic : List PairCall
traffic =
    sends true (λ i. i) 3
    ∷ receives false (λ i. 0) 2
    ∷ shuts true 2
    ∷ receives false (λ i. 0) 2
    ∷ []

pair_run-IsStream_example : IsStream 10 11 20 21 (pair_run 10 11 20 21 traffic (silent connected))
pair_run-IsStream_example = pair_run-IsStream 10 11 20 21 traffic (silent connected) silent-IsStream

shut_down_write_example :
    (s' : Sockets) × (shut_socket 2 (some 10) connected
      ≡ some (pos 0, pipe_cond 20 has_data ∷ [], s'))
    × ((buf : ℕ → ℕ) (n : ℕ)
        → outcome (socket_write (some 10) buf n s') ≡ refusal (without_writer (pipe 4 3)) buf)
    × ((buf : ℕ → ℕ) (n : ℕ)
        → (o : Outcome) × (outcome (socket_read (some 11) buf n s') ≡ some o)
          × (seen o
              ≡ read (record { reading = true; writing = false; bytes = contents (pipe 4 3) }) n))
unfolding acquire_pipe_cb
shut_down_write_example =
    shut_down_write connected-IsConnected (pipe 4 3) 4 refl (pipe-IsValid 4 3) refl

shut_both_ends_example :
    (s1 : Sockets) × (s2 : Sockets) × (shut_socket 2 (some 10) connected
      ≡ some (pos 0, pipe_cond 20 has_data ∷ [], s1))
    × (shut_socket 1 (some 11) s1 ≡ some (pos 0, [], s2))
    × ((buf : ℕ → ℕ) (n : ℕ) → socket_read (some 11) buf n s2 ≡ none)
    × ((buf : ℕ → ℕ) (n : ℕ) → socket_write (some 10) buf n s2 ≡ none)
    × (socket_close (some 10) s2 ≡ none)
unfolding acquire_pipe_cb
shut_both_ends_example = shut_both_ends connected-IsConnected (pipe 4 3) 4 refl refl

abbrev two_unbound : Sockets
two_unbound = record {
  sockets = update (update (λ a. none) 10 (some (socket 3 unbound))) 12 (some (socket 5 unbound));
  pipes = λ w. none;
  requests = λ r. record { admitted = false; peer_socket = 0; pending = false };
  port_map = λ p. none;
}

two_unbound-PortsRight : PortsRight two_unbound
two_unbound-PortsRight = λ p l h. absurd (cc (h))

listen_on-Listens_example :
    Listens 12 (socket 5 unbound) two_unbound (listen_on (some 12) two_unbound)
listen_on-Listens_example =
    listen_on-Listens 12 (socket 5 unbound) two_unbound refl two_unbound-PortsRight (omega arith)

abbrev calls : List PortCall
calls = listen 12 ∷ listen 10 ∷ request 10 30 12 ∷ close 12 ∷ listen 10 ∷ []

port_run-PortsRight_example : PortsRight (port_run calls two_unbound)
port_run-PortsRight_example = port_run-PortsRight calls two_unbound two_unbound-PortsRight

abbrev requested : Kernel Sockets
requested = record {
  ft = λ f. record { refcount = 0; streamobj = none; streamfunc = nulldev_fops };
  freelist = 7 ∷ 8 ∷ [];
  fidt = replicate 16 none;
  objects = record {
    sockets =
        update (update (λ a. none) 10 (some (socket 3 unbound))) 12
          (some (socket 5 (listener (30 ∷ []))));
    pipes = λ w. none;
    requests = λ r. record { admitted = false; peer_socket = 10; pending = true };
    port_map = update (λ p. none) 80 (some 12);
  };
}

abbrev fresh : NewBlocks
fresh = record { socket = 11; pipe1 = 20; pipe2 = 21; buffer1 = buffer; buffer2 = buffer }

requested-IsServing :
    IsServing fresh 12 (socket 5 (listener (30 ∷ []))) 30 [] (socket 3 unbound) requested
requested-IsServing = record {
  ids = refl;
  listens = refl;
  queued = refl;
  port_number = omega arith;
  held = refl;
  waits = refl;
  others_wait = refl;
  asks = refl;
  unused = refl;
  two_pipes = λ e. absurd (omega (arith, e));
  size1 = length-replicate {A = ℕ} 8192 0;
  size2 = length-replicate {A = ℕ} 8192 0;
}

accept_resume-Served_example : Served fresh 30 10 3 requested (accept_resume fresh 12 requested)
accept_resume-Served_example =
    accept_resume-Served fresh 12 (socket 5 (listener (30 ∷ []))) 30 [] (socket 3 unbound) requested
      requested-IsServing
