-- ===== src/Prelude/Int.antt =====
-- Signed integers over the native numbers, under the library's names.
use Prim.Native.Nat.{ℕ, ◌-◌, ◌%◌, ◌^◌, ◌<◌}
use rmw_desert.Prelude.Tests.{ltb, if◌then◌else◌}

-- `negsuc n` is -(n + 1).
pub data ℤ : Type 0 where
  pos : ℕ → ℤ
  negsuc : ℕ → ℤ

-- The two's complement pattern of `w` bits for an integer, and the integer that a pattern means.
abbrev pub pattern_of : ℕ → ℤ → ℕ
pattern_of w (pos n) = n % 2 ^ w
pattern_of w (negsuc n) = 2 ^ w - 1 - n % 2 ^ w

abbrev pub signed : ℕ → ℕ → ℤ
signed w p = if ltb p (2 ^ (w - 1)) then pos p else negsuc (2 ^ w - 1 - p)

-- `static_cast` to a signed type of `w` bits.
abbrev pub cast_signed : ℕ → ℤ → ℤ
cast_signed w z = signed w (pattern_of w z)

-- The values of a signed type of `w` bits.
abbrev pub IsSigned : ℕ → ℤ → Type 0
IsSigned w (pos n) = n < 2 ^ (w - 1)
IsSigned w (negsuc n) = n < 2 ^ (w - 1)
