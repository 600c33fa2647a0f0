-- ===== src/Prelude/Words.antt =====
-- C's fixed-width integers as bit patterns: an `int` or `unsigned int` is a number below 2 ^ 32,
-- and the sign of an `int` is its bit 31.
use Prim.Native.Nat.{ℕ, ◌+◌, ◌-◌, ◌*◌, ◌/◌, ◌%◌, ◌^◌, bit_and}
use mathlib.Core.Bool.{Bool, not}
use zvbi.Prelude.Tests.{ltb, leb, ◌==◌, if◌then◌else◌}

abbrev pub u8 : ℕ → ℕ
u8 n = n % 2 ^ 8

abbrev pub u16 : ℕ → ℕ
u16 n = n % 2 ^ 16

abbrev pub u32 : ℕ → ℕ
u32 n = n % 2 ^ 32

infixl 75 ◌<<<◌ ◌>>>◌
abbrev pub ◌<<<◌ : ℕ → ℕ → ℕ
x <<< k = x * 2 ^ k

abbrev pub ◌>>>◌ : ℕ → ℕ → ℕ
x >>> k = x / 2 ^ k

-- `~x` on 32 bits.
abbrev pub complement : ℕ → ℕ
complement x = 2 ^ 32 - 1 - x

-- `x < 0` for an `int`.
abbrev pub is_negative : ℕ → Bool
is_negative x = leb (2 ^ 31) x

-- The `int` -1.
abbrev pub minus_one : ℕ
minus_one = 0xffffffff

-- An `int8_t` read as an `int`.
abbrev pub sign_extend : ℕ → ℕ
sign_extend x = if ltb x 128 then x else x + 0xffffff00

-- C's truth of `x & m`.
abbrev pub has_bits : ℕ → ℕ → Bool
has_bits x m = not (bit_and x m == 0)

-- `x <= y` for two `int`s.
abbrev pub signed_le : ℕ → ℕ → Bool
signed_le x y = leb (u32 (x + 2 ^ 31)) (u32 (y + 2 ^ 31))
