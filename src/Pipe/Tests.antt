-- ===== src/Pipe/Tests.antt =====
-- kernel_pipe.c on an empty pipe, and on a full one.
use tiny_os_project.Prelude.{
  ℕ, ◌+◌, ◌≡◌, ◌⊎◌, refl, arith, true, [], ◌∷◌, some, replicate, length-replicate,
}
use tiny_os_project.Prelude.Int.{pos}
use tiny_os_project.Pipe.{
  PipeCb, has_space, has_data, returns, put_byte, take_byte, write_resume, read_resume, write_loop,
  read_loop, pipe_write, pipe_read,
}
use tiny_os_project.Pipe.Ring.{IsValid}
use tiny_os_project.Pipe.Buffer.{slice}
use tiny_os_project.Pipe.Refine.{seen, view, write_resume_refines, read_resume_refines}
use tiny_os_project.Pipe.Fifo
use tiny_os_project.Pipe.History.{
  reads, writes, closes_writer, step, run, Log, InOrder, alive, run-InOrder, announces,
  FreesUnannounced, step-announces_space,
}

abbrev letters : ℕ → ℕ
letters i = i + 65

abbrev empty_pipe : PipeCb
empty_pipe = record {
  reader = some 0;
  writer = some 1;
  w_position = 3;
  r_position = 3;
  buffer = replicate 8192 0;
  used_space = 0;
}

abbrev full_pipe : PipeCb
full_pipe = record empty_pipe { used_space = 8192 }

empty_pipe-IsValid : IsValid empty_pipe
empty_pipe-IsValid = record {
  storage = length-replicate {A = ℕ} 8192 0;
  reads = omega arith;
  writes = omega arith;
  used = omega arith;
  ahead = refl;
}

full_pipe-IsValid : IsValid full_pipe
full_pipe-IsValid = record {
  storage = length-replicate {A = ℕ} 8192 0;
  reads = omega arith;
  writes = omega arith;
  used = omega arith;
  ahead = refl;
}

abbrev opened : Log
opened = record { pipe = some empty_pipe; sent = []; received = [] }

run-InOrder_example : InOrder (run opened (writes letters 3 ∷ reads letters 2 ∷ closes_writer ∷ []))
run-InOrder_example =
    run-InOrder (writes letters 3 ∷ reads letters 2 ∷ closes_writer ∷ []) opened
      (alive empty_pipe refl empty_pipe-IsValid refl)

write_resume_refines_example :
    seen (write_resume empty_pipe letters 2) ≡ Fifo.write (view empty_pipe) (slice letters 0 2)
write_resume_refines_example = write_resume_refines empty_pipe letters 2 empty_pipe-IsValid

read_resume_refines_example : seen (read_resume full_pipe letters 2) ≡ Fifo.read (view full_pipe) 2
read_resume_refines_example = read_resume_refines full_pipe letters 2 full_pipe-IsValid

run_read :
    step full_pipe (reads letters 1)
    ≡ returns
        (pos 1)
        (some (take_byte full_pipe))
        (read_loop 1 0 letters full_pipe).1
        (has_space ∷ [])
unfolding step pipe_read read_resume read_loop
run_read = refl

step-announces_space_example :
    (announces has_space (has_space ∷ []) ≡ true)
    ⊎ FreesUnannounced full_pipe (reads letters 1) (some (take_byte full_pipe)) (has_space ∷ [])
step-announces_space_example =
    step-announces_space full_pipe (pos 1) (read_loop 1 0 letters full_pipe).1 (has_space ∷ [])
      full_pipe-IsValid (reads letters 1) (some (take_byte full_pipe)) run_read refl refl

run_write :
    step empty_pipe (writes letters 1)
    ≡ returns (pos 1) (some (put_byte empty_pipe 65)) letters (has_data ∷ [])
unfolding step pipe_write write_resume write_loop
run_write = refl

-- The pipe goes to the next free address.
abbrev next_address : PipeCb → ℕ → ℕ × ℕ
next_address p n = (n, n + 1)
