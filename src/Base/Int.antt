-- ===== src/Base/Int.antt =====
-- Signed numbers over the native naturals. `negsuc n` is -(n + 1).
use chat_server.Base.{ℕ}

pub data ℤ : Type 0 where
  pos : ℕ → ℤ
  negsuc : ℕ → ℤ
