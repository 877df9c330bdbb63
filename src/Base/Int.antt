-- ===== src/Base/Int.antt =====
-- Go's `int` where a negative value is told apart.
use Prim.Native.Nat.{ℕ}

pub data ℤ : Type 0 where
  pos : ℕ → ℤ
  negsuc : ℕ → ℤ
