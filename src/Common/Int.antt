-- ===== src/Common/Int.antt =====
-- The signed integers of the source (int, std::int32_t, std::int64_t), where only the sign of an
-- index or a slot is looked at before it is cast to std::size_t.
use Prim.Native.Nat.{ℕ}

-- `negsuc n` is -(n + 1).
pub data ℤ : Type 0 where
  pos : ℕ → ℤ
  negsuc : ℕ → ℤ
