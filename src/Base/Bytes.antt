-- ===== src/Base/Bytes.antt =====
-- Bytes as numbers, and the byte that stands for a flag.
use Prim.Native.Nat.{ℕ, ◌<◌}
use mathlib.Core.Bool.{Bool, true, false}
use native.Mathlib.Omega.{arith}

abbrev pub IsByte : ℕ → Type 0
IsByte b = b < 256

unfoldable pub flag_byte : Bool → ℕ
flag_byte true = 1
flag_byte false = 0

pub flag_byte-IsByte : (t : Bool) → IsByte (flag_byte t)
unfolding flag_byte
flag_byte-IsByte true = omega arith
flag_byte-IsByte false = omega arith
