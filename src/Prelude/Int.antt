-- ===== src/Prelude/Int.antt =====
-- The C `int` results and arguments of the kernel's calls.
use Prim.Native.Nat.{ℕ}
use mathlib.Core.Bool.{Bool, false}
use tiny_os_project.Prelude.Tests.{ltb}

-- `negsuc n` is -(n + 1).
pub data ℤ : Type 0 where
  pos : ℕ → ℤ
  negsuc : ℕ → ℤ

-- The value -1 by which the calls report an error.
abbrev pub minus_one : ℤ
minus_one = negsuc 0

-- `0 <= x && x < n`
abbrev pub in_range : ℕ → ℤ → Bool
in_range n (pos x) = ltb x n
in_range n (negsuc x) = false

abbrev pub to_nat : ℤ → ℕ
to_nat (pos x) = x
to_nat (negsuc x) = 0
