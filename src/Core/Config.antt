-- ===== src/Core/Config.antt =====
-- app/core/config.py: the settings that the program reads, and the check at start.
use Prim.Native.String.{count}
use tenantflow_api.Prelude.{ℕ, String, Bool, true, false, ◌||◌, ltb, str_eq, if◌then◌else◌, ⊤}
use tenantflow_api.Core.Errors.{Result, ok, err, Error}

pub data AppEnv : Type 0 where
  development test production : AppEnv

pub record Settings : Type 0 where
  pub app_env : AppEnv
  pub jwt_secret : String
  pub jwt_issuer : String
  pub jwt_audience : String
  pub webhook_encryption_key : String
  pub webhook_allow_private_targets : Bool
  pub access_token_minutes : ℕ
  pub refresh_token_days : ℕ
  pub mail_from : String
  pub stripe_secret_key : String
  pub stripe_webhook_secret : String
  pub stripe_price_pro : String
  pub stripe_price_business : String

unfoldable pub is_production : Settings → Bool
is_production s = elim s.app_env [ production ↦ true | _ ↦ false ]

abbrev unsafe_jwt_value : String → Bool
unsafe_jwt_value v =
    str_eq v "development-only-secret-change-me-32chars"
    || str_eq v "replace-with-at-least-32-random-characters"

abbrev unsafe_webhook_value : String → Bool
unsafe_webhook_value v = str_eq v "" || str_eq v "replace-with-a-separate-32-character-secret"

abbrev pub is_weak_jwt_secret : String → Bool
is_weak_jwt_secret v = ltb (count v) 32 || unsafe_jwt_value v

abbrev pub is_weak_webhook_key : String → Bool
is_weak_webhook_key v = ltb (count v) 32 || unsafe_webhook_value v

unfoldable pub validate_runtime_secrets : Settings → Result ⊤
unfolding is_production
validate_runtime_secrets s =
    if is_production s
    then if is_weak_jwt_secret s.jwt_secret
      then err (
          Error.runtime_error
            "JWT_SECRET must be a non-default secret of at least 32 characters in production")
      else if is_weak_webhook_key s.webhook_encryption_key
      then err (
          Error.runtime_error
            "WEBHOOK_ENCRYPTION_KEY must be a non-default secret of at least 32 characters in production")
      else if str_eq s.jwt_secret s.webhook_encryption_key
      then err
          (Error.runtime_error "JWT_SECRET and WEBHOOK_ENCRYPTION_KEY must be different secrets")
      else if s.webhook_allow_private_targets
      then err (Error.runtime_error "WEBHOOK_ALLOW_PRIVATE_TARGETS must be false in production")
      else ok tt
    else ok tt
