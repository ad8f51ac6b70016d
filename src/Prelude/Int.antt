-- ===== src/Prelude/Int.antt =====
-- The signed numbers that functions of the repository return: native numbers, and -1 for an error.
use samuel_basnet_240512_st.Prelude.{ℕ}

-- `negsuc n` is -(n + 1).
pub data ℤ : Type 0 where
  pos : ℕ → ℤ
  negsuc : ℕ → ℤ
