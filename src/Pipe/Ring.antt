-- ===== src/Pipe/Ring.antt =====
-- The bytes in the ring of a pipe, and what the steps of the two loops do to them.
use tiny_os_project.Prelude.{
  ℕ, zero, suc, ◌+◌, ◌-◌, ◌%◌, ◌≤◌, ◌<◌, ◌≡◌, refl, ap, ap₂, List, [], ◌∷◌, ◌++◌, arith, length,
  get_or, set, length-set, get_or-set_self, get_or-set_ne,
}
use native.Mathlib.Numerals.{add-one}
use tiny_os_project.Pipe.{PipeCb, pipe_buffer_size, advance, put_byte, take_byte}

-- The ring's positions lie in the buffer, and the write position is `used_space` steps ahead.
pub record IsValid (p : PipeCb) : Type 0 where
  pub storage : length p.buffer ≡ pipe_buffer_size
  pub reads : p.r_position < pipe_buffer_size
  pub writes : p.w_position < pipe_buffer_size
  pub used : p.used_space ≤ pipe_buffer_size
  pub ahead : (p.r_position + p.used_space) % pipe_buffer_size ≡ p.w_position

-- The `n` bytes of the buffer from position `r` on.
abbrev pub window : List ℕ → ℕ → ℕ → List ℕ
window buf r zero = []
window buf r (suc n) = get_or buf r 0 ∷ window buf (advance r) n

-- The bytes that the pipe holds, oldest first.
abbrev pub contents : PipeCb → List ℕ
contents p = window p.buffer p.r_position p.used_space

pub length-contents : (buf : List ℕ) (r n : ℕ) → length (window buf r n) ≡ n
length-contents buf r zero = refl
length-contents buf r (suc n) = ap suc (length-contents buf (advance r) n)

window-set :
    (buf : List ℕ) (byte r w n : ℕ)
    → length buf ≡ pipe_buffer_size
    → r < pipe_buffer_size
    → n < pipe_buffer_size
    → (r + n) % pipe_buffer_size ≡ w
    → window (set buf w byte) r (suc n) ≡ window buf r n ++ (byte ∷ [])
window-set buf byte r w zero size hr hn e =
    let same : w ≡ r = omega arith in rw (same, get_or-set_self buf r byte 0 (omega arith))
window-set buf byte r w (suc n) size hr hn e =
    ap₂ ◌∷◌ (get_or-set_ne buf byte 0 (omega arith))
      (window-set buf byte (advance r) w n size (ground arith) (omega arith) (ground arith))

window_pos :
    (buf : List ℕ) (r n : ℕ)
    → 0 < n
    → window buf r n ≡ get_or buf r 0 ∷ window buf (advance r) (n - 1)
window_pos buf r zero h = absurd (omega arith)
window_pos buf r (suc n) h = ap (λ k. window buf r (suc k)) (omega arith)

-- One round of the loop of `pipe_write` puts the byte behind those held.
pub put_byte-contents :
    (p : PipeCb) (byte : ℕ)
    → IsValid p
    → p.used_space < pipe_buffer_size
    → IsValid (put_byte p byte) × (contents (put_byte p byte) ≡ contents p ++ (byte ∷ []))
put_byte-contents p byte v h = (
  ground (arith, length-set p.buffer p.w_position byte),
  rw add-one
      (window-set p.buffer byte p.r_position p.w_position p.used_space v.storage v.reads h v.ahead),
)

-- One round of the loop of `pipe_read` takes the oldest byte.
pub take_byte-contents :
    (p : PipeCb)
    → IsValid p
    → 0 < p.used_space
    → IsValid (take_byte p) × (contents p ≡ get_or p.buffer p.r_position 0 ∷ contents (take_byte p))
take_byte-contents p v h = (ground arith, window_pos p.buffer p.r_position p.used_space h)
