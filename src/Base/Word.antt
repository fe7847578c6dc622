-- ===== src/Base/Word.antt =====
-- Machine words as native numbers: `unsigned long` and `size_t` have 32 bits in the Win32 build,
-- `unsigned short` has 16. A signed value is kept as its bit pattern.
use Prim.Native.Nat.{ℕ, ◌+◌, ◌-◌, ◌/◌, ◌%◌, ◌<◌}
use mathlib.Core.Path.{◌≡◌}
use mathlib.Core.Bool.{Bool}
use native.Mathlib.Omega.{arith}
use udt_boost.Base.Tests.{ltb, leb, if◌then◌else◌}

abbrev pub u16_mod : ℕ
u16_mod = 65536

abbrev pub u32_mod : ℕ
u32_mod = 4294967296

abbrev pub u32_half : ℕ
u32_half = 2147483648

abbrev pub u16 : ℕ → ℕ
u16 n = n % u16_mod

abbrev pub u32 : ℕ → ℕ
u32 n = n % u32_mod

abbrev pub add32 : ℕ → ℕ → ℕ
add32 a b = (a + b) % u32_mod

abbrev pub sub32 : ℕ → ℕ → ℕ
sub32 a b = (a + u32_mod - b) % u32_mod

-- `(long)w < 0`, for the bit pattern `w`.
abbrev pub is_neg32 : ℕ → Bool
is_neg32 w = leb u32_half w

-- `(long)a < (long)b`: adding 2 ^ 31 carries the signed order over to the unsigned one.
abbrev pub lt32s : ℕ → ℕ → Bool
lt32s a b = ltb (add32 a u32_half) (add32 b u32_half)

abbrev pub min32s : ℕ → ℕ → ℕ
min32s a b = if lt32s b a then b else a

abbrev pub max32s : ℕ → ℕ → ℕ
max32s a b = if lt32s a b then b else a

-- `(short)a < (short)b`.
abbrev pub lt16s : ℕ → ℕ → Bool
lt16s a b = ltb ((a + 32768) % u16_mod) ((b + 32768) % u16_mod)

-- `(int)s` of a `short`, as a 32-bit pattern.
abbrev pub sign_extend : ℕ → ℕ
sign_extend s = if ltb s 32768 then s else s + 4294901760

-- `x >> 2` and `x >> 3` of a `short`, rounding down.
abbrev pub sar2 : ℕ → ℕ
sar2 x = if ltb x 32768 then x / 4 else (x + 196608) / 4

abbrev pub sar3 : ℕ → ℕ
sar3 x = if ltb x 32768 then x / 8 else (x + 458752) / 8

pub add32-lt : (a b : ℕ) → add32 a b < u32_mod
add32-lt a b = omega arith

pub sub32-lt : (a b : ℕ) → sub32 a b < u32_mod
sub32-lt a b = omega arith

pub sub32-add32 : (a b : ℕ) → a < u32_mod → b < u32_mod → sub32 (add32 a b) b ≡ a
sub32-add32 a b ha hb = omega arith
