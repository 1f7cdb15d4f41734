-- ===== src/Prelude/Results.antt =====
-- What a Python call does: it returns a value, or it raises.
pub data Error : Type 0 where
  value_error io_error : Error

pub data Outcome {ℓ} (A : Type ℓ) : Type ℓ where
  returned : A → Outcome A
  raised : Error → Outcome A
