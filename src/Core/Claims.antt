-- ===== src/Core/Claims.antt =====
-- The payload of an access token (app/core/security.py, `create_access_token`).
use tenantflow_api.Prelude.{ℕ, String}

pub record Claims : Type 0 where
  pub sub : ℕ
  pub type : String
  pub iat : ℕ
  pub exp : ℕ
  pub jti : String
  pub iss : String
  pub aud : String
