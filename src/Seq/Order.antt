-- ===== src/Seq/Order.antt =====
-- The modular comparisons order the numbers of any half window of the 32-bit circle.
use udt_boost.Base.{ℕ, ◌<◌, ◌≡◌, arith, ltb, leb, sub32, u32_mod, u32_half}
use udt_boost.Seq.{seq_lt, seq_le, seq_gt, seq_ge}

-- The distance of a number from the start of the window.
abbrev pub offset : ℕ → ℕ → ℕ
offset base s = sub32 s base

-- In the half window that starts at `base`, each comparison is that of the distances from `base`,
-- wherever the window lies on the circle: also where it runs over the wrap at 2 ^ 32.
pub seq_cmp-offset :
    (base a b : ℕ)
    → base < u32_mod
    → a < u32_mod
    → b < u32_mod
    → offset base a < u32_half
    → offset base b < u32_half
    → (seq_lt a b ≡ ltb (offset base a) (offset base b))
      × (seq_le a b ≡ leb (offset base a) (offset base b))
      × (seq_gt a b ≡ ltb (offset base b) (offset base a))
      × (seq_ge a b ≡ leb (offset base b) (offset base a))
seq_cmp-offset base a b hw ha hb oa ob = ground arith
