-- ===== src/Common/Integers.antt =====
-- The integers, over the native numbers.
use Prim.Native.Nat.{ℕ, zero, suc}
use mathlib.Core.Bool.{Bool, true, false}

-- `negsuc n` is - (n + 1).
pub data ℤ : Type 0 where
  pos negsuc : ℕ → ℤ

-- `if z < 0 { z = 0 }`
unfoldable pub clamp_pos : ℤ → ℕ
clamp_pos (ℤ.pos n) = n
clamp_pos (ℤ.negsuc n) = 0

-- `z <= 0`
unfoldable pub is_not_pos : ℤ → Bool
is_not_pos (ℤ.pos zero) = true
is_not_pos (ℤ.pos (suc n)) = false
is_not_pos (ℤ.negsuc n) = true
