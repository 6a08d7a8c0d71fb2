-- ===== src/Prelude/Int.antt =====
-- An int, over the native numbers.
use lite_mqtt.Prelude.{ℕ}

-- `negsuc n` is -(n + 1).
pub data ℤ : Type 0 where
  pos negsuc : ℕ → ℤ

-- `(n < 0) ? 0 : n`
abbrev pub at_least_zero : ℤ → ℕ
at_least_zero (pos n) = n
at_least_zero (negsuc n) = 0
