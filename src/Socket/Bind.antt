-- ===== src/Socket/Bind.antt =====
-- kernel_socket.c, what `sys_Socket` leaves.
use tiny_os_project.Prelude.{
  ℕ, zero, suc, ◌+◌, ◌≤◌, ◌<◌, ◌≡◌, refl, ◌⊎◌, inl, inr, true, false, Option, none, some, List, [],
  ◌∷◌, ltb, ◌==◌, arith, length, get_or-set_self, Bool-cases,
}
use tiny_os_project.Prelude.Int.{ℤ, pos, minus_one}
use tiny_os_project.Streams.{
  Fcb, Kernel, max_fileid, fid_entry, null, next_fid, find_fids, acquire_fcb, acquire_all,
  release_all, install, fcb_reserve, get_fcb,
}
use tiny_os_project.Socket.{unbound, Sockets, set_socket, max_port, bind_socket, sys_socket}

pub next_fid-upper : (left f : ℕ) (t : List (Option ℕ)) → next_fid left f t ≤ f + left
unfolding next_fid
next_fid-upper zero f t = omega arith
next_fid-upper (suc left) f t = elim (Bool-cases (null (fid_entry t f))) [
  | inl e ↦ rw (e, next_fid) (omega arith)
  | inr e ↦ rw (e, next_fid) (omega (arith, next_fid-upper left (f + 1) t))
]

-- The process has no free identifier, or the file table no free block.
abbrev pub IsFull : Kernel Sockets → Type 0
IsFull k = (find_fids 1 0 k.fidt ≡ none) ⊎ (k.freelist ≡ [])

-- What a reservation of one stream can end with.
pub data ReservedOne (k : Kernel Sockets) : Option (List ℕ × List ℕ) × Kernel Sockets → Type 0 where
  none_free : IsFull k → ReservedOne k (none, k)
  one :
      (g f : ℕ) (k' : Kernel Sockets)
      → k'.objects ≡ k.objects
      → get_fcb (pos g) k' ≡ some f
      → ReservedOne k (some (g ∷ [], f ∷ []), k')

installed_one :
    (g f : ℕ) (k : Kernel Sockets)
    → length k.fidt ≡ max_fileid
    → g < max_fileid
    → get_fcb (pos g) (install (g ∷ []) (f ∷ []) k) ≡ some f
unfolding get_fcb install
installed_one g f k size h = ground (arith, get_or-set_self k.fidt g (some f) none (omega arith))

found_one :
    (t : List (Option ℕ))
    → (find_fids 1 0 t ≡ none) ⊎ ((g : ℕ) × (g < max_fileid) × (find_fids 1 0 t ≡ some (g ∷ [])))
unfolding find_fids
found_one t = elim (Bool-cases (next_fid max_fileid 0 t == max_fileid)) [
  | inl e ↦ inl (rw e refl)
  | inr e ↦ inr (next_fid max_fileid 0 t, ground (arith, next_fid-upper max_fileid 0 t), rw e refl)
]

-- The acquisition of one block.
abbrev AcquiredOne : Kernel Sockets → Type 0
AcquiredOne k =
    ((k.freelist ≡ []) × (acquire_all 1 [] k ≡ (false, [], k)))
    ⊎ ((f : ℕ) × (k' : Kernel Sockets) × (k'.objects ≡ k.objects)
        × (k'.fidt ≡ k.fidt)
        × (acquire_all 1 [] k ≡ (true, f ∷ [], k')))

acquired_from :
    (ft : ℕ → Fcb) (free : List ℕ) (fidt : List (Option ℕ)) (w : Sockets)
    → AcquiredOne (record { ft = ft; freelist = free; fidt = fidt; objects = w })
unfolding acquire_all acquire_fcb
acquired_from ft [] fidt w = inl (refl, refl)
acquired_from ft (b ∷ rest) fidt w = inr (b, _, refl, refl, refl)

acquired_one : (k : Kernel Sockets) → AcquiredOne k
acquired_one k = acquired_from k.ft k.freelist k.fidt k.objects

pub reserve_one :
    (k : Kernel Sockets) → length k.fidt ≡ max_fileid → ReservedOne k (fcb_reserve 1 k)
unfolding fcb_reserve release_all install
reserve_one k size = elim (found_one k.fidt) [
  | inl e ↦ rw (e, fcb_reserve) (none_free (inl e))
  | inr (g, h, e) ↦ elim (acquired_one k) [
    | inl (empty, a) ↦ rw (e, a, fcb_reserve) (none_free (inr empty))
    | inr (f, k', same, table, a) ↦
        rw (e, a, fcb_reserve)
          (one g f (install (g ∷ []) (f ∷ []) k') same (installed_one g f k' (rw table size) h))
  ]
]

-- What `sys_Socket` returns and leaves.
pub data Bound (new port : ℕ) (k : Kernel Sockets) : ℤ × Kernel Sockets → Type 0 where
  no_room : IsFull k → Bound new port k (minus_one, k)
  bound :
      (fid f : ℕ) (k' : Kernel Sockets)
      → get_fcb (pos fid) k' ≡ some f
      → (k'.ft f).streamobj ≡ some new
      → k'.objects
        ≡ set_socket new (record { refcount = 0; fcb = f; state = unbound; port = port }) k.objects
      → Bound new port k (pos fid, k')

bind_socket-Bound :
    (new port : ℕ) (k : Kernel Sockets) (out : Option (List ℕ × List ℕ) × Kernel Sockets)
    → ReservedOne k out
    → Bound new port k (bind_socket new port out.0 out.1)
unfolding get_fcb
bind_socket-Bound new port k _ (none_free h) = no_room h
bind_socket-Bound new port k _ (one g f k' same entry) =
    bound g f (bind_socket new port (some (g ∷ [], f ∷ [])) k').1 entry (ground arith)
      (rw same refl)

pub sys_socket-Bound :
    (new port : ℕ) (k : Kernel Sockets)
    → length k.fidt ≡ max_fileid
    → port ≤ max_port
    → Bound new port k (sys_socket new (pos port) k)
unfolding sys_socket
sys_socket-Bound new port k size h =
    let inside : ltb port (max_port + 1) ≡ true = ground arith in
    rw (inside, sys_socket) (bind_socket-Bound new port k (fcb_reserve 1 k) (reserve_one k size))
