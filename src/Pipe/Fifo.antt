-- ===== src/Pipe/Fifo.antt =====
-- What a pipe promises: a queue of at most `pipe_buffer_size` bytes between two ends.
use tiny_os_project.Prelude.{
  ℕ, ◌-◌, Bool, ◌&&◌, Option, some, List, [], ◌∷◌, ◌++◌, length, ◌==◌, if◌then◌else◌, take, drop,
  min,
}
use tiny_os_project.Prelude.Int.{ℤ, pos, minus_one}
use tiny_os_project.Pipe.{Cond, has_space, has_data, pipe_buffer_size}

pub record Fifo : Type 0 where
  pub reading : Bool
  pub writing : Bool
  pub bytes : List ℕ

-- What a call shows: that it sleeps, or its result with the bytes that it moved, the queue that it
-- leaves (`none` once freed) and the conditions that it announces.
pub data Seen : Type 0 where
  asleep : Cond → Fifo → Seen
  back : ℤ → List ℕ → Option Fifo → List Cond → Seen

-- A write accepts the longest prefix that fits; it sleeps only when nothing fits.
unfoldable pub write : Fifo → List ℕ → Seen
write f bs =
    if f.reading
    then (if length f.bytes == pipe_buffer_size
        then asleep has_space f
        else let k = min (length bs) (pipe_buffer_size - length f.bytes) in
          back (pos k) (take k bs) (some (record f { bytes = f.bytes ++ take k bs }))
            (has_data ∷ []))
    else back minus_one [] (some f) []

-- A read takes the oldest bytes; it sleeps on an empty queue that can still be written.
unfoldable pub read : Fifo → ℕ → Seen
read f n =
    if length f.bytes == 0 && f.writing
    then asleep has_data f
    else let k = min n (length f.bytes) in
      back (pos k) (take k f.bytes) (some (record f { bytes = drop k f.bytes })) (has_space ∷ [])
