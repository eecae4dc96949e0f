-- ===== src/Base/Words.antt =====
-- Machine words as native numbers. A `uint32_t` is a number below 2 ^ 32; an `int32_t` is kept as
-- its bit pattern, which makes the casts between the two the identity.
use Prim.Native.Nat.{ℕ, ◌+◌, ◌-◌, ◌%◌}
use mathlib.Core.Bool.{Bool}
use libxkbcommon.Base.Tests.{leb}

abbrev pub u8 : ℕ → ℕ
u8 n = n % 256

abbrev pub u32 : ℕ → ℕ
u32 n = n % 4294967296

abbrev pub add32 : ℕ → ℕ → ℕ
add32 a b = u32 (a + b)

abbrev pub sub32 : ℕ → ℕ → ℕ
sub32 a b = u32 (a + 4294967296 - b)

-- The sign bit of an `int32_t`.
abbrev pub is_negative : ℕ → Bool
is_negative w = leb 2147483648 w

-- `~m` on 32 bits.
abbrev pub not32 : ℕ → ℕ
not32 m = 4294967295 - m
