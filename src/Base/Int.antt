-- ===== src/Base/Int.antt =====
-- Signed integers over the native numbers, for `big.Int` values.
use Prim.Native.Nat.{ℕ, zero, suc}

-- `negsuc n` is -(n + 1).
pub data ℤ : Type 0 where
  pos : ℕ → ℤ
  negsuc : ℕ → ℤ

abbrev pub negate : ℕ → ℤ
negate zero = pos 0
negate (suc n) = negsuc n

-- The absolute value.
abbrev pub nat_abs : ℤ → ℕ
nat_abs (pos n) = n
nat_abs (negsuc n) = suc n

abbrev pub pos_part : ℤ → ℕ
pos_part (pos n) = n
pos_part (negsuc n) = 0

abbrev pub neg_part : ℤ → ℕ
neg_part (pos n) = 0
neg_part (negsuc n) = suc n
