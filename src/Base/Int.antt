-- ===== src/Base/Int.antt =====
-- Signed integers over the native numbers, where the code takes a signed argument.
use Prim.Native.Nat.{ℕ}

-- `negsuc n` is -(n + 1).
pub data ℤ : Type 0 where
  pos : ℕ → ℤ
  negsuc : ℕ → ℤ
