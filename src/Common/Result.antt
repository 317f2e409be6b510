-- ===== src/Common/Result.antt =====
-- A Go function's pair of a value and an error: one of the two.

pub data Result {ℓ κ} (E : Type κ) (A : Type ℓ) : Type (ℓ ⊔ κ) where
  ok : A → Result E A
  err : E → Result E A
