-- ===== src/Prelude/Integers.antt =====
-- Rust's signed integers.
use Prim.Native.Nat.{ℕ}

pub data ℤ : Type 0 where
  pos negsuc : ℕ → ℤ
