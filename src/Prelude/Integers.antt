-- ===== src/Prelude/Integers.antt =====
-- Signed integers, such as an `i32` and an `i64`.
use ladon.Prelude.{ℕ}

pub data ℤ : Type 0 where
  pos negsuc : ℕ → ℤ
