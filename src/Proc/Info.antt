-- ===== src/Proc/Info.antt =====
-- kernel_proc.c, the stream of `OpenInfo`. A `PICB *` is an address in the objects behind the streams.
pub mod Stream
use tiny_os_project.Prelude.{
  ℕ, zero, suc, ◌+◌, ◌-◌, Bool, true, false, not, ◌&&◌, Option, none, some, List, [], ◌∷◌, ltb, leb,
  length, ◌==◌, if◌then◌else◌, update, get_or,
}
use tiny_os_project.Prelude.Int.{ℤ, pos, negsuc, minus_one, to_nat}
use tiny_os_project.Devices.{procinfo_ops}
use tiny_os_project.Streams.{Kernel, fcb_reserve}
use tiny_os_project.Proc.{max_proc, Pcb, Procs, is_free, is_zombie, get_pid}

abbrev pub procinfo_max_args_size : ℕ
procinfo_max_args_size = 128

-- The structure that a read returns. `args` is the array of 128 bytes.
pub record Procinfo : Type 0 where
  pub pid : ℤ
  pub ppid : ℤ
  pub alive : Bool
  pub thread_count : ℤ
  pub main_task : Option ℕ
  pub argl : ℤ
  pub args : ℕ → ℕ

pub record Picb : Type 0 where
  pub info : Procinfo
  pub cursor : ℕ

-- `if(dataLen > PROCINFO_MAX_ARGS_SIZE)`
abbrev pub data_len : ℤ → ℤ
data_len (pos n) = pos (if ltb procinfo_max_args_size n then procinfo_max_args_size else n)
data_len (negsuc n) = negsuc n

-- Whether `memcpy` of a length may read these bytes: a length below 0 becomes a huge `size_t`, and with
-- the length 0 it reads nothing, from NULL either.
abbrev pub can_copy : ℤ → Option (List ℕ) → Bool
can_copy (pos zero) args = true
can_copy (pos (suc n)) none = false
can_copy (pos (suc n)) (some l) = leb (suc n) (length l)
can_copy (negsuc n) args = false

-- The array once `memcpy` has written its first bytes.
abbrev pub overwrite : ℕ → Option (List ℕ) → (ℕ → ℕ) → ℕ → ℕ
overwrite n none old i = old i
overwrite n (some l) old i = if ltb i n then get_or l i 0 else old i

-- `memcpy` of the arguments of a process. There is no result where it follows NULL or leaves the
-- arguments.
abbrev pub copy_bytes : ℤ → Option (List ℕ) → (ℕ → ℕ) → Option (ℕ → ℕ)
copy_bytes n args old = if can_copy n args then some (overwrite (to_nat n) args old) else none

-- The loop that moves the cursor to the next block in use, with `left` for `MAX_PROC - cursor`. The
-- source looks at the block before it compares: what lies behind the table at `MAX_PROC` is looked at.
pub skip_free : (left cursor : ℕ) → (ℕ → Pcb) → ℕ
skip_free zero cursor pt = cursor
skip_free (suc left) cursor pt =
    let rest = skip_free left (cursor + 1) pt in
    if is_free (pt cursor).pstate && ltb cursor max_proc then rest else cursor

-- What the read stores about the block `p`, with the array of the arguments.
abbrev pub describe : ℕ → Pcb → (ℕ → ℕ) → Procinfo
describe p b args = record {
  pid = get_pid (some p);
  ppid = get_pid b.parent;
  alive = not (is_zombie b.pstate);
  thread_count = b.thread_count;
  main_task = b.main_task;
  argl = b.argl;
  args = args;
}

-- What follows the copy of the arguments. There is no result where the copy has none.
abbrev pub finish_read :
    (size_of cursor : ℕ) → Pcb → Option (ℕ → ℕ) → Option (ℤ × Option Procinfo × Picb)
finish_read size_of cursor b none = none
finish_read size_of cursor b (some args) =
    let info = describe cursor b args in
    some (pos size_of, some info, record { info = info; cursor = cursor + 1 })

-- `size_of` is `sizeof(procinfo)`. The second result is what reaches the buffer.
abbrev pub read_at :
    (size_of cursor : ℕ) → (ℕ → Pcb) → Procinfo → Option (ℤ × Option Procinfo × Picb)
read_at size_of cursor pt old =
    if cursor == max_proc
    then some (pos 0, none, record { info = old; cursor = cursor })
    else finish_read size_of cursor (pt cursor)
        (copy_bytes (data_len (pt cursor).argl) (pt cursor).args old.args)

pub procinfo_read : (size_of : ℕ) → Picb → (ℕ → Pcb) → Option (ℤ × Option Procinfo × Picb)
unfolding skip_free
procinfo_read size_of picb pt =
    read_at size_of (skip_free (max_proc - picb.cursor) picb.cursor pt) pt picb.info

abbrev pub procinfo_open : ℤ
procinfo_open = minus_one

abbrev pub procinfo_write : ℤ
procinfo_write = minus_one

module _ {W : Type 0} where
  -- `xmalloc` stores a control block with its cursor at 0, and returns its address.
  abbrev connect_info : (W → ℕ × W) → Option (List ℕ × List ℕ) → Kernel W → ℤ × Kernel W
  connect_info xmalloc (some (fid ∷ fids, f ∷ fcbs)) k =
      let (picb, objects) = xmalloc k.objects in
      (
        pos fid,
        record k {
          ft = update k.ft f (record (k.ft f) { streamobj = some picb; streamfunc = procinfo_ops });
          objects = objects;
        },
      )
  connect_info xmalloc _ k = (minus_one, k)

  pub sys_open_info : (W → ℕ × W) → Kernel W → ℤ × Kernel W
  sys_open_info xmalloc k = let (reserved, k') = fcb_reserve 1 k in connect_info xmalloc reserved k'
