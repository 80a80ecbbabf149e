-- ===== src/Prelude/Words.antt =====
-- Machine words as native numbers: `uint8_t`, `uint16_t` and `uint32_t` are taken modulo their
-- size, and an `int32_t` is an integer.
use Prim.Native.Nat.{ℕ, ◌+◌, ◌-◌, ◌%◌}
use mathlib.Core.Bool.{Bool, true, false}
use max.Prelude.Tests.{leb, if◌then◌else◌}

-- `negsuc n` is -(n + 1).
pub data ℤ : Type 0 where
  pos : ℕ → ℤ
  negsuc : ℕ → ℤ

abbrev pub u8 : ℕ → ℕ
u8 n = n % 256

abbrev pub u16 : ℕ → ℕ
u16 n = n % 65536

abbrev pub u32 : ℕ → ℕ
u32 n = n % 4294967296

-- UINT32_MAX, INT32_MAX and UINT8_MAX.
abbrev pub u32_max : ℕ
u32_max = 4294967295

abbrev pub i32_max : ℕ
i32_max = 2147483647

abbrev pub u8_max : ℕ
u8_max = 255

-- `uint32_t` a + b and a - b.
abbrev pub add32 : ℕ → ℕ → ℕ
add32 a b = u32 (a + b)

abbrev pub sub32 : ℕ → ℕ → ℕ
sub32 a b = u32 (a + 4294967296 - b)

-- `static_cast<int32_t>` of a `uint32_t`.
abbrev pub to_int32 : ℕ → ℤ
to_int32 n = if leb n 2147483647 then pos n else negsuc (4294967295 - n)

-- `z >= 0`.
abbrev pub is_nonneg : ℤ → Bool
is_nonneg (pos n) = true
is_nonneg (negsuc n) = false

-- The low byte of an `int32_t`, `static_cast<uint8_t>(z)`.
abbrev pub low_byte : ℤ → ℕ
low_byte (pos n) = n % 256
low_byte (negsuc n) = 255 - n % 256

-- The value of a nonnegative integer, and 0 for the others.
abbrev pub pos_part : ℤ → ℕ
pos_part (pos n) = n
pos_part (negsuc n) = 0
