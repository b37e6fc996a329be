-- ===== src/Pipe/Open.antt =====
-- `sys_Pipe`, which opens both ends of a new pipe in the file table of the process.
use tiny_os_project.Prelude.{
  ℕ, ◌≡◌, refl, inl, inr, ◌&&◌, leb, Option, none, some, List, [], ◌∷◌, if◌then◌else◌, update,
  arith, length, Option-cases, ap, ◌∙◌,
}
use tiny_os_project.Prelude.Int.{ℤ, pos, minus_one}
use tiny_os_project.Devices.{FileOps, reader_file_ops, writer_file_ops}
use tiny_os_project.Pipe.{PipeCb, acquire_pipe_cb}
use tiny_os_project.Streams.{Kernel, fcb_reserve}
use tiny_os_project.Streams.Refs.{Roomy, IsCounted}
use tiny_os_project.Streams.Ids.{free_ids}
use tiny_os_project.Streams.Fresh.{missing}
use tiny_os_project.Streams.Reserve.{
  fcb_reserve-IsCounted, fcb_reserve-succeeds, fcb_reserve-number,
}

module _ {W : Type 0} where
  abbrev set_stream : ℕ → ℕ → FileOps → Kernel W → Kernel W
  set_stream f obj ops k = record k {
    ft = update k.ft f (record (k.ft f) { streamobj = some obj; streamfunc = ops });
  }

  -- The branch of success; the arrays have two elements. `xmalloc` stores a block among the objects
  -- and returns its address.
  abbrev connect_ends :
      (PipeCb → W → ℕ × W) → List ℕ → List ℕ → List ℕ → Kernel W → ℤ × Option (ℕ × ℕ) × Kernel W
  connect_ends xmalloc buffer (read ∷ write ∷ _) (reader ∷ writer ∷ _) k =
      let (pipe_cb, objects) =
        xmalloc (acquire_pipe_cb (some reader) (some writer) buffer) k.objects in
      let k1 = set_stream reader pipe_cb reader_file_ops (record k { objects = objects }) in
      (pos 0, some (read, write), set_stream writer pipe_cb writer_file_ops k1)
  connect_ends xmalloc buffer _ _ k = (minus_one, none, k)

  -- The result, and the identifiers of the two ends.
  pub sys_pipe : (PipeCb → W → ℕ × W) → List ℕ → Kernel W → ℤ × Option (ℕ × ℕ) × Kernel W
  sys_pipe xmalloc buffer k =
      let (reserved, k') = fcb_reserve 2 k in
      elim reserved [
        | none ↦ (minus_one, none, k')
        | some (fids, fcbs) ↦ connect_ends xmalloc buffer fids fcbs k'
      ]

  set_stream-IsCounted :
      {held : ℕ → ℕ} {k : Kernel W} (f obj : ℕ) (ops : FileOps)
      → IsCounted held k
      → IsCounted held (set_stream f obj ops k)
  set_stream-IsCounted {k = k} f obj ops v = record {
    table = v.table;
    each = λ g. ground (arith, v.each g);
  }

  connect_ends-IsCounted :
      {held : ℕ → ℕ} {k : Kernel W} (xmalloc : PipeCb → W → ℕ × W) (buffer fids fcbs : List ℕ)
      → IsCounted held k
      → IsCounted held (connect_ends xmalloc buffer fids fcbs k).2
  connect_ends-IsCounted {k = k} xmalloc buffer (read ∷ write ∷ fids) (reader ∷ writer ∷ fcbs) v =
      let (pipe_cb, objects) =
        xmalloc (acquire_pipe_cb (some reader) (some writer) buffer) k.objects in
      let stored : IsCounted _ (record k { objects = objects }) = record {
        table = v.table;
        each = v.each;
      } in
      set_stream-IsCounted writer pipe_cb writer_file_ops
        (set_stream-IsCounted reader pipe_cb reader_file_ops stored)
  connect_ends-IsCounted xmalloc buffer [] fcbs v = v
  connect_ends-IsCounted xmalloc buffer (read ∷ []) fcbs v = v
  connect_ends-IsCounted xmalloc buffer (read ∷ write ∷ fids) [] v = v
  connect_ends-IsCounted xmalloc buffer (read ∷ write ∷ fids) (reader ∷ []) v = v

  result_connected :
      (xmalloc : PipeCb → W → ℕ × W) (buffer fids fcbs : List ℕ) (k : Kernel W)
      → length fids ≡ 2
      → length fcbs ≡ 2
      → (connect_ends xmalloc buffer fids fcbs k).0 ≡ pos 0
  result_connected xmalloc buffer (read ∷ write ∷ fids) (reader ∷ writer ∷ fcbs) k a b = refl
  result_connected xmalloc buffer [] fcbs k a b = absurd (omega arith)
  result_connected xmalloc buffer (read ∷ []) fcbs k a b = absurd (omega arith)
  result_connected xmalloc buffer (read ∷ write ∷ fids) [] k a b = absurd (omega arith)
  result_connected xmalloc buffer (read ∷ write ∷ fids) (reader ∷ []) k a b = absurd (omega arith)

  module _ (xmalloc : PipeCb → W → ℕ × W) (buffer : List ℕ) {held : ℕ → ℕ} {k : Kernel W}
      (v : IsCounted held k) where
    -- Where every counter is right with room in 32 bits, `sys_Pipe` keeps every reference counter
    -- right, whether it succeeds or fails.
    pub sys_pipe-IsCounted : Roomy held → IsCounted held (sys_pipe xmalloc buffer k).2
    unfolding sys_pipe
    sys_pipe-IsCounted room =
        let w = fcb_reserve-IsCounted 2 v room in
        elim (Option-cases (fcb_reserve 2 k).0) [
          | inl e ↦ rw (e, sys_pipe) w
          | inr ((fids, fcbs), e) ↦
              rw (e, sys_pipe) (connect_ends-IsCounted xmalloc buffer fids fcbs w)
        ]

    -- Where every counter is right, `sys_Pipe` returns 0 exactly when the process has two free
    -- identifiers and the file table two free blocks, and -1 else.
    pub sys_pipe_result : (sys_pipe xmalloc buffer k).0 ≡ (
        if leb 2 (length (free_ids 0 k.fidt)) && leb 2 (length k.freelist)
        then pos 0
        else minus_one)
    unfolding sys_pipe
    sys_pipe_result =
        let s = fcb_reserve-succeeds 2 v in
        elim (Option-cases (fcb_reserve 2 k).0) [
          | inl e ↦ rw (e, sys_pipe) (ground (arith, ap missing e, s))
          | inr ((fids, fcbs), e) ↦
              let (a, b) = fcb_reserve-number 2 v fids fcbs e in
              rw (e, sys_pipe)
                (result_connected xmalloc buffer fids fcbs (fcb_reserve 2 k).1 a b
                  ∙ ground (arith, ap missing e, s))
        ]
