-- ===== src/Base/Int.antt =====
-- The C int as an integer: `negsuc n` is -(n + 1), so the error return -1 is `negsuc 0`.
use Prim.Native.Nat.{ℕ, ◌-◌, ◌%◌, ◌^◌, ◌<◌}
use mathlib.Core.Path.{◌≡◌}
use native.Mathlib.Omega.{arith}
use tout_os.Base.Bools.{ltb, if◌then◌else◌}

pub data ℤ : Type 0 where
  pos : ℕ → ℤ
  negsuc : ℕ → ℤ

-- The error return of the kernel's functions.
abbrev pub minus_one : ℤ
minus_one = negsuc 0

-- Conversion of an unsigned value to a 32-bit int.
abbrev pub to_int : ℕ → ℤ
to_int n = let w = n % 2 ^ 32 in if ltb w (2 ^ 31) then pos w else negsuc (2 ^ 32 - w - 1)

pub to_int-pos : (n : ℕ) → n < 2 ^ 31 → to_int n ≡ pos n
to_int-pos n h = ground arith
