-- ===== src/Prelude/Int.antt =====
-- Signed machine values, such as `ssize_t` and a file descriptor: `negsuc n` is -(n + 1).
use Prim.Native.Nat.{ℕ}

pub data ℤ : Type 0 where
  pos : ℕ → ℤ
  negsuc : ℕ → ℤ
