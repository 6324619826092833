-- ===== src/Auth/Router.antt =====
-- app/modules/auth/router.py.
use Prim.Native.String.{count}
use tenantflow_api.Prelude.{
  ℕ, String, Bool, not, ◌&&◌, Option, none, some, List, [], ◌∷◌, str_eq, leb, if◌then◌else◌, ⊤,
}
use tenantflow_api.Core.Errors.{Error, ok}
use tenantflow_api.Core.Dependencies.{get_current_user}
use tenantflow_api.Db.Models.{User}
use tenantflow_api.Db.Session.{Platform, Action, pure, raise, raise_if, count_metric, ◌>>=◌, ◌>>◌}
use tenantflow_api.Infra.RateLimit.{Bucket, RateLimitResult, run_script}
use tenantflow_api.Auth.Service.{
  RegisterRequest, TokenPair, register_user, authenticate, issue_token_pair, rotate_refresh_token,
  revoke_refresh_token,
}

pub record UserResponse : Type 0 where
  pub id : ℕ
  pub email : String
  pub full_name : String

abbrev pub user_response : User → UserResponse
user_response u = record { id = u.id; email = u.email; full_name = u.full_name }

-- the Redis keys, under the client's address
unfoldable pub find_bucket : String → List (String × Bucket) → Option Bucket
find_bucket k [] = none
find_bucket k ((j, b) ∷ bs) = if str_eq j k then some b else find_bucket k bs

unfoldable pub put_bucket : String → Bucket → List (String × Bucket) → List (String × Bucket)
put_bucket k b [] = (k, b) ∷ []
put_bucket k b ((j, c) ∷ bs) = if str_eq j k then (k, b) ∷ bs else (j, c) ∷ put_bucket k b bs

module _ ⦃p : Platform⦄ where
  -- check_rate_limit(redis, f"ratelimit:login:{client_ip}", limit=10, window_seconds=60)
  unfoldable pub limit_login : String → ℕ → Action RateLimitResult
  unfolding run_script find_bucket put_bucket
  limit_login client_ip now_ms w =
      let (bucket, result) = run_script p.lua 10 60000 now_ms (find_bucket client_ip w.buckets) in
      (ok result, record w { buckets = put_bucket client_ip bucket w.buckets })

  unfoldable pub issue_login_tokens : String → ℕ → String → String → Action TokenPair
  unfolding limit_login authenticate issue_token_pair
  issue_login_tokens client_ip now_ms email password = do
    result ← limit_login client_ip now_ms
    if result.allowed
        then (do user ← authenticate email password; issue_token_pair user none)
        else (do
          count_metric "rate_limit_rejections" "login_ip"
          raise (Error.http 429 "Too many login attempts" (some result.retry_after)))

  -- Field(min_length=10, max_length=256) of the password, and (2, 160) of the name
  unfoldable pub valid_registration : RegisterRequest → Bool
  valid_registration r =
      leb 10 (count r.password)
      && leb (count r.password) 256
      && leb 2 (count r.full_name)
      && leb (count r.full_name) 160

  unfoldable pub register : RegisterRequest → Action UserResponse
  unfolding register_user valid_registration
  register payload = do
    raise_if (not (valid_registration payload)) Error.validation
    user ← register_user payload
    pure (user_response user)

  unfoldable pub login : String → ℕ → String → String → Action TokenPair
  unfolding issue_login_tokens
  login client_ip now_ms email password = issue_login_tokens client_ip now_ms email password

  unfoldable pub refresh : String → Action TokenPair
  unfolding rotate_refresh_token
  refresh refresh_token = rotate_refresh_token refresh_token

  unfoldable pub logout : String → Action ⊤
  unfolding revoke_refresh_token
  logout refresh_token = revoke_refresh_token refresh_token

  unfoldable pub me : String → Action UserResponse
  unfolding get_current_user
  me token = do user ← get_current_user token; pure (user_response user)
