-- ===== src/Gob.antt =====
-- What the program relies on from encoding/gob (and encoding/json): an encoding that is never
-- empty, and that decodes to what was encoded, up to what the program can see of it (`Same`).
use project_distributed_key.Base.{ℕ, ◌<◌, ◌≡◌, Option, some}

pub record Gob (B A : Type 0) (Same : A → A → Type 0) : Type 0 where
  pub len : B → ℕ
  pub encode : A → B
  pub decode : B → Option A
  pub encode_nonempty : (a : A) → 0 < len (encode a)
  pub decode-encode : (a : A) → (a' : A) × (decode (encode a) ≡ some a') × Same a' a
