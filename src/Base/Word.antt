-- ===== src/Base/Word.antt =====
-- Machine words as bit patterns: `uint32_t`, `uint64_t`, and `int` in two's complement.
use Prim.Native.Nat.{ℕ, ◌+◌, ◌-◌, ◌%◌, ◌^◌}
use mathlib.Core.Bool.{Bool}
use sysres_os.Base.Tests.{ltb, if◌then◌else◌}

abbrev pub u32 : ℕ
u32 = 2 ^ 32

abbrev pub u64 : ℕ
u64 = 2 ^ 64

abbrev pub add32 : ℕ → ℕ → ℕ
add32 a b = (a + b) % u32

-- `-` on ℕ is truncated: the modulus comes first.
abbrev pub sub32 : ℕ → ℕ → ℕ
sub32 a b = (a + u32 - b) % u32

abbrev pub add64 : ℕ → ℕ → ℕ
add64 a b = (a + b) % u64

abbrev pub sub64 : ℕ → ℕ → ℕ
sub64 a b = (a + u64 - b) % u64

-- The conversion of a 64-bit register to `int`, as a bit pattern.
abbrev pub to_int : ℕ → ℕ
to_int a = a % u32

-- `-1` as a 64-bit register and as an `int`.
abbrev pub minus_one64 : ℕ
minus_one64 = 2 ^ 64 - 1

abbrev pub minus_one32 : ℕ
minus_one32 = 2 ^ 32 - 1

-- `a < b` for `int`s: shifted by 2^31 the bit patterns stand in their numerical order.
abbrev pub lt_int : ℕ → ℕ → Bool
lt_int a b = ltb ((a + 2 ^ 31) % u32) ((b + 2 ^ 31) % u32)

-- The sign extension of an `int` into a 64-bit register.
abbrev pub of_int : ℕ → ℕ
of_int a = if ltb a (2 ^ 31) then a else a + (2 ^ 64 - 2 ^ 32)
