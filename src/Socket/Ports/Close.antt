-- ===== src/Socket/Ports/Close.antt =====
-- The ports when a socket is closed.
use tiny_os_project.Prelude.{
  ℕ, ◌≡◌, ◌≢◌, refl, sym, ap, ◌∙◌, inl, inr, false, not, Option, none, some, List, ◌++◌, update,
  update_self, update_other, ◌==◌, if◌then◌else◌, ℕ_discrete, Bool-cases, Option-cases,
}
use tiny_os_project.Prelude.Int.{ℤ, pos, minus_one}
use tiny_os_project.Pipe.{PipeCb, pipe_writer_close, pipe_reader_close}
use tiny_os_project.Socket.{
  SocketState, unbound, listener, peer, SocketCb, Sockets, ◌>>=◌, is_listener, port_entry,
}
use tiny_os_project.Socket.Transfer.{
  Wake, free_socket, set_pipe, close_reader, close_writer, close_peer, close_state, socket_close,
  is_success,
}
use tiny_os_project.Socket.Ports.{PortsRight}

abbrev pub after_close : Option (ℤ × List Wake × Sockets) → Option Sockets
after_close none = none
after_close (some (r, told, s)) = some s

abbrev pub OnSome : (Sockets → Type 0) → Option Sockets → Type 0
OnSome P none = Unit {0}
OnSome P (some s) = P s

-- A block to which no port leads can be freed.
freed_PortsRight :
    (a : ℕ) (b : SocketCb) (s : Sockets)
    → ((p : ℕ) → s.port_map p ≢ some a)
    → PortsRight s
    → PortsRight (free_socket a b s)
freed_PortsRight a b s apart right = elim (Bool-cases (b.refcount == 0)) [
  | inr e ↦ rw e right
  | inl e ↦ rw e (λ p l h.
      let (x, found, port, held_by) = right p l h in
      (x, update_other s.sockets a l none (λ at. apart p (h ∙ ap some at)) ∙ found, port, held_by))
]

-- No port leads to a socket that does not listen.
no_listener :
    (a : ℕ) (b : SocketCb) (s : Sockets)
    → s.sockets a ≡ some b
    → is_listener b.state ≡ false
    → PortsRight s
    → (p : ℕ) → s.port_map p ≢ some a
no_listener a b s e silent right p h =
    let (x, found, port, held_by) = right p a h in
    let one : x ≡ b = cc (found, e) in absurd (cc (rw one at held_by, silent))

dropped_port :
    (a : ℕ) (b : SocketCb) (s : Sockets)
    → s.sockets a ≡ some b
    → PortsRight s
    → OnSome PortsRight
        (some (free_socket a b (record s { port_map = update s.port_map b.port none })))
dropped_port a b s e right =
    freed_PortsRight a b (record s { port_map = update s.port_map b.port none })
      (λ p h. elim (ℕ_discrete p b.port) [
        | yes here ↦
            absurd
              (cc (ap (update s.port_map b.port none) here, update_self s.port_map b.port none, h))
        | no elsewhere ↦
            let (x, found, port, held_by) =
              right p a (sym (update_other s.port_map b.port p none elsewhere) ∙ h) in
            let one : x ≡ b = cc (found, e) in elsewhere (sym (rw one at port))
      ])
      (λ p l h. elim (ℕ_discrete p b.port) [
        | yes here ↦
            absurd
              (cc (ap (update s.port_map b.port none) here, update_self s.port_map b.port none, h))
        | no elsewhere ↦ right p l (sym (update_other s.port_map b.port p none elsewhere) ∙ h)
      ])

-- A close of an end of a pipe leaves the sockets and the ports.
data OnlyPipe (s : Sockets) : Option (ℤ × List Wake × Sockets) → Type 0 where
  dangling : OnlyPipe s none
  closed :
      (r : ℤ) (told : List Wake) (w : ℕ) (p : Option PipeCb)
      → OnlyPipe s (some (r, told, set_pipe w p s))

close_writer-OnlyPipe : (w : ℕ) (s : Sockets) → OnlyPipe s (close_writer w s)
unfolding close_writer
close_writer-OnlyPipe w s = elim (Option-cases (s.pipes w)) [
  | inl e ↦ rw e dangling
  | inr (p, e) ↦ rw e (closed _ _ w (pipe_writer_close (some p)).1)
]

close_reader-OnlyPipe : (w : ℕ) (s : Sockets) → OnlyPipe s (close_reader w s)
unfolding close_reader
close_reader-OnlyPipe w s = elim (Option-cases (s.pipes w)) [
  | inl e ↦ rw e dangling
  | inr (p, e) ↦ rw e (closed _ _ w (pipe_reader_close (some p)).1)
]

peer_closed_PortsRight :
    (a v w : ℕ) (b : SocketCb) (s : Sockets)
    → ((p : ℕ) → s.port_map p ≢ some a)
    → PortsRight s
    → OnSome PortsRight (after_close (close_peer a v w b s))
unfolding close_peer
peer_closed_PortsRight a v w b s apart right = first (close_writer v s) (close_writer-OnlyPipe v s)
  where
    second :
        (told : List Wake) (s1 : Sockets) (m : Option (ℤ × List Wake × Sockets))
        → PortsRight s1
        → ((p : ℕ) → s1.port_map p ≢ some a)
        → OnlyPipe s1 m
        → OnSome PortsRight (
            after_close (
              m >>= λ y. some (
                if not (is_success y.0)
                then (minus_one, told ++ y.1, y.2)
                else (pos 0, told ++ y.1, free_socket a b y.2))))
    second told s1 _ right apart dangling = tt
    second told s1 _ right apart (closed r told2 x p) = elim (Bool-cases (is_success r)) [
      | inl e ↦ rw e (freed_PortsRight a b (set_pipe x p s1) apart right)
      | inr e ↦ rw e right
    ]

    first :
        (m : Option (ℤ × List Wake × Sockets))
        → OnlyPipe s m
        → OnSome PortsRight (
            after_close (
              m >>= λ x.
              if not (is_success x.0)
              then some (minus_one, x.1, x.2)
              else close_reader w x.2 >>= λ y. some (
                  if not (is_success y.0)
                  then (minus_one, x.1 ++ y.1, y.2)
                  else (pos 0, x.1 ++ y.1, free_socket a b y.2))))
    first _ dangling = tt
    first _ (closed r told x p) = elim (Bool-cases (is_success r)) [
      | inl e ↦ rw e (
          second told (set_pipe x p s) (close_reader w (set_pipe x p s)) right apart
            (close_reader-OnlyPipe w (set_pipe x p s)))
      | inr e ↦ rw e right
    ]

pub closed_PortsRight :
    (a : ℕ) (s : Sockets) → PortsRight s → OnSome PortsRight (after_close (socket_close (some a) s))
unfolding socket_close
closed_PortsRight a s right = elim (Option-cases (s.sockets a)) [
  | inl e ↦ rw e tt
  | inr (b, e) ↦ rw e (by_state b e b.state refl)
]
  where
    by_state :
        (b : SocketCb)
        → s.sockets a ≡ some b
        → (x : SocketState) → b.state ≡ x
        → OnSome PortsRight (after_close (close_state a b x s))
    by_state b e unbound f = freed_PortsRight a b s (no_listener a b s e (rw f refl) right) right
    by_state b e (listener q) f = elim (Option-cases (port_entry b.port s)) [
      | inl g ↦ rw g tt
      | inr (entry, g) ↦ rw g (dropped_port a b s e right)
    ]
    by_state b e (peer o v w) f =
        peer_closed_PortsRight a v w b s (no_listener a b s e (rw f refl) right) right
