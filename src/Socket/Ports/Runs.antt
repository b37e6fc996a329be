-- ===== src/Socket/Ports/Runs.antt =====
-- Sequences of calls on the sockets, and the ports.
use tiny_os_project.Prelude.{
  ℕ, ◌≡◌, refl, inl, inr, Bool, not, ◌||◌, Option, none, some, List, [], ◌∷◌, ltb, arith, ◌==◌,
  Bool-cases, Option-cases,
}
use tiny_os_project.Prelude.Int.{ℤ}
use tiny_os_project.Socket.{
  listener, SocketCb, Sockets, max_port, is_unbound, refcount_up, refcount_down, listen_on,
}
use tiny_os_project.Socket.Connect.{
  queue_of, front_pending, push_request, make_request, connect_resume,
}
use tiny_os_project.Socket.Transfer.{socket_close}
use tiny_os_project.Socket.Ports.{
  PortsRight, set_socket-PortsRight, Listens, listens, in_use, no_port, port_held,
  listen_on-Listens,
}
use tiny_os_project.Socket.Ports.Close.{after_close, OnSome, closed_PortsRight}

-- The calls that change the sockets or the ports, short of `Accept`.
pub data PortCall : Type 0 where
  listen close : (a : ℕ) → PortCall
  request : (a r l : ℕ) → PortCall
  resume : Bool → (a r : ℕ) → PortCall

abbrev pub after {ℓ} : {A : Type ℓ} → Option (A × Sockets) → Option Sockets
after none = none
after (some (x, s)) = some s

unfoldable pub port_step : PortCall → Sockets → Option Sockets
port_step (listen a) s = after (listen_on (some a) s)
port_step (close a) s = after_close (socket_close (some a) s)
port_step (request a r l) s = make_request a r l s
port_step (resume signalled a r) s = after (connect_resume signalled a r s)

resumed_PortsRight :
    (signalled : Bool) (a r : ℕ) (s : Sockets)
    → PortsRight s
    → OnSome PortsRight (after (connect_resume signalled a r s))
unfolding connect_resume
resumed_PortsRight signalled a r s right = elim (Option-cases (s.sockets a)) [
  | inl e ↦ rw e tt
  | inr (b, e) ↦ rw e (set_socket-PortsRight a b (refcount_down b) s e refl (λ h. h) right)
]

pushed_PortsRight : (r l : ℕ) (s : Sockets) → PortsRight s → OnSome PortsRight (push_request r l s)
unfolding push_request
pushed_PortsRight r l s right = elim (Option-cases (s.sockets l)) [
  | inl e ↦ rw e tt
  | inr (b, e) ↦ elim (Option-cases (queue_of b.state)) [
    | inl f ↦ rw (e, f) tt
    | inr (q, f) ↦ elim (Bool-cases (front_pending q s)) [
      | inl g ↦
          rw (e, f, g)
            (set_socket-PortsRight l b (record b { state = listener (r ∷ q) }) s e refl (λ h. refl)
              right)
      | inr g ↦ rw (e, f, g) tt
    ]
  ]
]

requested_PortsRight :
    (a r l : ℕ) (s : Sockets) → PortsRight s → OnSome PortsRight (make_request a r l s)
unfolding make_request
requested_PortsRight a r l s right = elim (Option-cases (s.sockets a)) [
  | inl e ↦ rw e tt
  | inr (b, e) ↦
      rw e (
        pushed_PortsRight r l _ (set_socket-PortsRight a b (refcount_up b) s e refl (λ h. h) right))
]

listened_PortsRight :
    (a : ℕ) (s : Sockets) → PortsRight s → OnSome PortsRight (after (listen_on (some a) s))
unfolding listen_on
listened_PortsRight a s right = elim (Option-cases (s.sockets a)) [
  | inl e ↦ rw e tt
  | inr (b, e) ↦ elim (Bool-cases (ltb b.port max_port)) [
    | inl lt ↦ go b e (listen_on (some a) s) (listen_on-Listens a b s e right (ground (arith, lt)))
    | inr behind ↦ elim (Bool-cases (not (is_unbound b.state) || b.port == 0)) [
      | inl f ↦ rw (e, f) right
      | inr f ↦ rw (e, f, behind) tt
    ]
  ]
]
  where
    go :
        (b : SocketCb)
        → s.sockets a ≡ some b
        → (m : Option (ℤ × Sockets)) → Listens a b s m
        → OnSome PortsRight (after m)
    go b e _ (listens s' f g h i j k l right') = right'
    go b e _ (in_use h) = right
    go b e _ (no_port h) = right
    go b e _ (port_held l h) = right

port_step-PortsRight :
    (c : PortCall) (s : Sockets) → PortsRight s → OnSome PortsRight (port_step c s)
unfolding port_step
port_step-PortsRight (listen a) s right = listened_PortsRight a s right
port_step-PortsRight (close a) s right = closed_PortsRight a s right
port_step-PortsRight (request a r l) s right = requested_PortsRight a r l s right
port_step-PortsRight (resume signalled a r) s right = resumed_PortsRight signalled a r s right

-- A sequence of calls, up to one that follows a dangling pointer.
unfoldable pub port_run : List PortCall → Sockets → Sockets
unfolding port_step
port_run [] s = s
port_run (c ∷ cs) s = elim (port_step c s) [ none ↦ s | some s' ↦ port_run cs s' ]

-- Over any sequence of `Listen`, closes, requests of `Connect` and their ends, short of one that
-- follows a dangling pointer: if every port that is held leads to a listener of that port, it does
-- so afterwards.
pub port_run-PortsRight :
    (cs : List PortCall) (s : Sockets) → PortsRight s → PortsRight (port_run cs s)
unfolding port_run
port_run-PortsRight [] s right = right
port_run-PortsRight (c ∷ cs) s right = elim (Option-cases (port_step c s)) [
  | inl e ↦ rw (e, port_run) right
  | inr (s', e) ↦
      rw (e, port_run) (port_run-PortsRight cs s' (rw e at (port_step-PortsRight c s right)))
]
