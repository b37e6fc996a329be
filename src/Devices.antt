-- ===== src/Devices.antt =====
-- kernel_dev.c, the device table and the drivers' calls that do not wait.
pub mod Serial
mod Tests
use tiny_os_project.Prelude.{ℕ, Option, none, some, ltb, leb, if◌then◌else◌}
use tiny_os_project.Prelude.Int.{ℤ, pos}

-- `Device_type`, and the tables of stream operations that the kernel defines.
pub data DeviceType : Type 0 where
  dev_null dev_serial : DeviceType

pub data FileOps : Type 0 where
  nulldev_fops serial_fops reader_file_ops writer_file_ops socket_file_ops procinfo_ops : FileOps

abbrev pub max_terminals : ℕ
max_terminals = 4

-- `devtable[major].devnum` as `initialize_devices` sets it; `ports` is `bios_serial_ports()`.
unfoldable pub device_no : ℕ → DeviceType → ℕ
device_no ports dev_null = 1
device_no ports dev_serial = ports

-- `none` for NULL, else the index of the terminal's control block in `serial_dcb`.
abbrev pub open_device : DeviceType → ℕ → Option ℕ
open_device dev_null minor = none
open_device dev_serial minor = some minor

abbrev pub dev_fops : DeviceType → FileOps
dev_fops dev_null = nulldev_fops
dev_fops dev_serial = serial_fops

-- The stream object and operations, or `none` where the call returns -1.
unfoldable pub device_open : ℕ → DeviceType → ℕ → Option (Option ℕ × FileOps)
unfolding device_no
device_open ports major minor =
    if leb (device_no ports major) minor
    then none
    else some (open_device major minor, dev_fops major)

-- `memset` of the first `size` bytes.
unfoldable pub nulldev_read : (ℕ → ℕ) → ℕ → ℤ × (ℕ → ℕ)
nulldev_read buf size = (pos size, λ i. if ltb i size then 0 else buf i)

unfoldable pub nulldev_write : (ℕ → ℕ) → ℕ → ℤ
nulldev_write buf size = pos size
