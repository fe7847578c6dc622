-- ===== src/Seq.antt =====
-- The modular comparisons of sequence numbers, udt/udt_defs.h. A `udt_seq` is a 32-bit pattern, and
-- `(int)(lop - rop)` is read off the pattern of the difference.
pub mod Order
use udt_boost.Base.{ℕ, Bool, ◌&&◌, ◌||◌, ltb, leb, ◌==◌, sub32, u32_half}

abbrev pub seq_lt : ℕ → ℕ → Bool
seq_lt lop rop = leb u32_half (sub32 lop rop)

abbrev pub seq_le : ℕ → ℕ → Bool
seq_le lop rop = leb u32_half (sub32 lop rop) || sub32 lop rop == 0

abbrev pub seq_gt : ℕ → ℕ → Bool
seq_gt lop rop = ltb 0 (sub32 lop rop) && ltb (sub32 lop rop) u32_half

abbrev pub seq_ge : ℕ → ℕ → Bool
seq_ge lop rop = ltb (sub32 lop rop) u32_half
