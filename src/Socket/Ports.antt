-- ===== src/Socket/Ports.antt =====
-- kernel_socket.c, the ports and the listeners that hold them.
pub mod Close
pub mod Runs
use tiny_os_project.Prelude.{
  ℕ, ◌≤◌, ◌<◌, ◌≡◌, ◌≢◌, ◌⊎◌, refl, sym, ap, ◌∙◌, inl, inr, Bool, true, false, not, ◌&&◌, ◌||◌,
  Option, none, some, List, [], ◌∷◌, ◌++◌, ltb, update, update_self, update_other, arith, ◌==◌,
  if◌then◌else◌, ℕ_discrete, Bool-cases, Option-cases,
}
use tiny_os_project.Prelude.Int.{ℤ, pos, minus_one}
use tiny_os_project.Pipe.{PipeCb, pipe_writer_close, pipe_reader_close}
use tiny_os_project.Socket.{
  SocketState, unbound, listener, peer, SocketCb, Request, Sockets, ◌>>=◌, max_port, is_unbound,
  is_listener, set_socket, refcount_up, refcount_down, port_entry, is_taken, listen_on,
}
use tiny_os_project.Socket.Connect.{
  queue_of, front_pending, push_request, make_request, connect_resume,
}
use tiny_os_project.Socket.Transfer.{
  Wake, free_socket, set_pipe, close_reader, close_writer, close_peer, close_state, socket_close,
  is_success,
}

-- A port leads to a listener of that port.
abbrev pub PortsRight : Sockets → Type 0
PortsRight s =
    (p l : ℕ)
    → s.port_map p ≡ some l
    → (b : SocketCb) × (s.sockets l ≡ some b) × (b.port ≡ p) × (is_listener b.state ≡ true)

-- A change of a block that stays a listener if it was one.
pub set_socket-PortsRight :
    (a : ℕ) (b b' : SocketCb) (s : Sockets)
    → s.sockets a ≡ some b
    → b'.port ≡ b.port
    → (is_listener b.state ≡ true → is_listener b'.state ≡ true)
    → PortsRight s
    → PortsRight (set_socket a b' s)
set_socket-PortsRight a b b' s e same stays right p l h =
    let (x, found, port, listens) = right p l h in
    elim (ℕ_discrete l a) [
      | yes at ↦
          let one : x ≡ b = cc (found, at, e) in
          (
            b',
            ap (update s.sockets a (some b')) at ∙ update_self s.sockets a (some b'),
            same ∙ (rw one at port),
            stays (rw one at listens),
          )
      | no other ↦ (x, update_other s.sockets a l (some b') other ∙ found, port, listens)
    ]

-- What `Listen` does to a socket with the block `b`.
pub data Listens (a : ℕ) (b : SocketCb) (s : Sockets) : Option (ℤ × Sockets) → Type 0 where
  listens :
      (s' : Sockets)
      → b.state ≡ unbound
      → b.port ≢ 0
      → s.port_map b.port ≡ none
      → s'.port_map b.port ≡ some a
      → s'.sockets a ≡ some (record b { state = listener [] })
      → ((p : ℕ) → p ≢ b.port → s'.port_map p ≡ s.port_map p)
      → ((l : ℕ) → l ≢ a → s'.sockets l ≡ s.sockets l)
      → PortsRight s'
      → Listens a b s (some (pos 0, s'))
  in_use : is_unbound b.state ≡ false → Listens a b s (some (minus_one, s))
  no_port : b.port ≡ 0 → Listens a b s (some (minus_one, s))
  port_held : (l : ℕ) → s.port_map b.port ≡ some l → Listens a b s (some (minus_one, s))

unbound_lem : (x : SocketState) → is_unbound x ≡ true → x ≡ unbound
unbound_lem unbound e = refl
unbound_lem (listener q) e = absurd (cc (e))
unbound_lem (peer o v w) e = absurd (cc (e))

pub listener-held : (x : SocketState) → is_listener x ≡ true → is_unbound x ≡ false
listener-held (listener q) e = refl
listener-held unbound e = absurd (cc (e))
listener-held (peer o v w) e = refl

module _ (a : ℕ) (b : SocketCb) (s : Sockets) (e : s.sockets a ≡ some b)
    (right : PortsRight s) where
  listening : Sockets
  listening = record (set_socket a (record b { state = listener [] }) s) {
    port_map = update s.port_map b.port (some a);
  }

  listening-PortsRight : b.state ≡ unbound → PortsRight listening
  unfolding listening
  listening-PortsRight free p l h = elim (ℕ_discrete p b.port) [
    | yes here ↦
        let held : some a ≡ some l =
          sym (ap (update s.port_map b.port (some a)) here ∙ update_self s.port_map b.port (some a))
          ∙ h in
        let same : a ≡ l = cc (held) in
        (
          record b { state = listener [] },
          ap (update s.sockets a _) (sym same) ∙ update_self s.sockets a _,
          sym here,
          refl,
        )
    | no elsewhere ↦
        set_socket-PortsRight a b (record b { state = listener [] }) s e refl (λ x. refl) right p l
          (sym (update_other s.port_map b.port p (some a) elsewhere) ∙ h)
  ]

  new_listener :
      b.state ≡ unbound
      → b.port ≢ 0
      → s.port_map b.port ≡ none
      → Listens a b s (some (pos 0, listening))
  unfolding listening
  new_listener free port empty =
      listens listening free port empty (update_self s.port_map b.port (some a))
        (update_self s.sockets a _) (λ p other. update_other s.port_map b.port p (some a) other)
        (λ l other. update_other s.sockets a l _ other) (listening-PortsRight free)

  -- Where every port that is held leads to a listener of that port, `Listen` of a socket with a
  -- port below MAX_PORT fails and changes nothing where the socket is not unbound, has no port, or
  -- its port is held; else the socket becomes a listener without requests, its port leads to it,
  -- other sockets and ports are as before, and every port that is held leads to a listener of that
  -- port.
  pub listen_on-Listens : b.port < max_port → Listens a b s (listen_on (some a) s)
  unfolding listen_on listening
  listen_on-Listens lt = elim (Bool-cases (is_unbound b.state)) [
    | inr used ↦ rw (e, used) (in_use used)
    | inl free ↦ elim (ℕ_discrete b.port 0) [
      | yes zero_port ↦
          let none_given : (b.port == 0) ≡ true = ground (arith, zero_port) in
          rw (e, free, none_given) (no_port zero_port)
      | no port ↦
          let given : (b.port == 0) ≡ false = ground (arith, port) in
          let inside : ltb b.port max_port ≡ true = ground (arith, lt) in
          elim (Option-cases (s.port_map b.port)) [
            | inl empty ↦
                rw (e, free, given, inside, empty)
                  (new_listener (unbound_lem b.state free) port empty)
            | inr (l, held) ↦
                let (x, found, same, held_by) = right b.port l held in
                let bound : is_unbound x.state ≡ false = listener-held x.state held_by in
                rw (e, free, given, inside, held, found, bound) (port_held l held)
          ]
    ]
  ]
