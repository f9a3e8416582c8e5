-- ===== src/Http.antt =====
-- What a handler of the API comes to (FastAPI): its value, or an HTTPException of a status.
use sda_system.Prelude.{ℕ}

pub data Response {ℓ} (A : Type ℓ) : Type ℓ where
  ok : A → Response A
  status : ℕ → Response A
