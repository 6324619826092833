-- ===== src/Examples/Auth.antt =====
-- Refresh tokens at work.
use tenantflow_api.Core.Dependencies.{get_current_user}
use tenantflow_api.Auth.Authentication.{login_authenticates, standing}
use tenantflow_api.Core.Claims.{Claims}
use tenantflow_api.Prelude.{
  ℕ, zero, suc, ap, scalar, ◌==◌, ◌+◌, ◌≡◌, refl, String, true, false, none, some, List, [], ◌∷◌,
  arith,
}
use tenantflow_api.Core.Errors.{err}
use tenantflow_api.Db.Models.{RefreshToken, User}
use tenantflow_api.Db.Session.{World, request, Platform}
use tenantflow_api.Auth.Service.{TokenPair, rotate_refresh_token}
use tenantflow_api.Auth.Rotation.{IsRotated}
use tenantflow_api.Auth.Refusal.{invalid_token, refuse_reuse}
use tenantflow_api.Core.Errors.{Error}
use tenantflow_api.Infra.RateLimit.{Bucket, run_script}
use tenantflow_api.Auth.Router.{find_bucket, login}
use tenantflow_api.Auth.Limit.{login_refused}
use tenantflow_api.Examples.World.{demo, db, at, start, alice}

abbrev token : RefreshToken
token = record {
  id = 70;
  user_id = 1;
  token_hash = "sha:raw";
  family_id = 80;
  expires_at = 5000;
  revoked_at = none;
  replaced_by_hash = none;
  created_at = 0;
}

abbrev before : World
before = at 0 (record db { refresh_tokens = token ∷ [] })

abbrev pair : TokenPair
pair = record { access_token = "jwt"; refresh_token = "ttoken" }

abbrev after : World
after = (request (rotate_refresh_token ⦃p = demo⦄ "raw") before).1

refuse_reuse_example :
    IsRotated ⦃p = demo⦄ "sha:raw" pair after.db.refresh_tokens
    × (rotate_refresh_token ⦃p = demo⦄ "raw" after
        ≡ (err invalid_token, record after { ticks = after.ticks + 1 }))
unfolding rotate_refresh_token request tenantflow_api.Db.Session.◌>>=◌ tenantflow_api.Prelude.scalar
    tenantflow_api.Db.Constraints.refresh_token_fits tenantflow_api.Prelude.exists
    tenantflow_api.Examples.World.tokens
refuse_reuse_example = refuse_reuse ⦃p = demo⦄ "raw" pair before after after refl refl

abbrev empty : Bucket
empty = record { tokens = 0; updated_at_ms = 1000 }

abbrev flooded : World
flooded = record before { buckets = ("1.2.3.4", empty) ∷ [] }

login_refused_example :
    let (bucket, result) = run_script demo.lua 10 60000 2000 (some empty) in
    let (r, v) =
      request (login ⦃p = demo⦄ "1.2.3.4" 2000 "alice@example.com" "correct horse") flooded in
    (r ≡ err (Error.http 429 "Too many login attempts" (some 5)))
    × (v.db ≡ flooded.db)
    × (find_bucket "1.2.3.4" v.buckets ≡ some bucket)
    × (find_bucket "5.6.7.8" v.buckets ≡ none)
unfolding run_script find_bucket
login_refused_example =
    login_refused ⦃p = demo⦄ "1.2.3.4" "5.6.7.8" 2000 "alice@example.com" "correct horse" flooded
      refl refl

-- a platform whose access tokens write the user's id in strokes
unfoldable strokes : ℕ → String
strokes zero = ""
strokes (suc n) = String.◌∷◌ "1" (strokes n)

abbrev count_strokes : String → ℕ
count_strokes String.[] = zero
count_strokes (String.◌∷◌ c s) = suc (count_strokes s)

count_strokes-strokes : (n : ℕ) → count_strokes (strokes n) ≡ n
unfolding strokes
count_strokes-strokes zero = refl
count_strokes-strokes (suc n) = ap suc (count_strokes-strokes n)

abbrev claims_of_user : ℕ → Claims
claims_of_user n = record {
  sub = n;
  type = "access";
  iat = 1004;
  exp = 1904;
  jti = "ttttttoken";
  iss = "tenantflow";
  aud = "api";
}

abbrev signing : Platform
signing = record demo {
  jwt_encode = λ c key. strokes c.sub;
  jwt_decode = λ token key instant iss aud. some (claims_of_user (count_strokes token));
}

abbrev signed_in : World
signed_in =
    (request (login ⦃p = signing⦄ "1.2.3.4" 2000 "alice@example.com" "correct horse") start).1

login_authenticates_example :
    (user : User) × (some alice ≡ some user)
    × (signing.verify_password "correct horse" user.password_hash ≡ true)
    × (user.is_active ≡ true)
    × (get_current_user ⦃p = signing⦄ "1" signed_in ≡ (
      standing ⦃p = signing⦄ (scalar (λ (u : User). u.id == user.id) signed_in.db.users),
      record signed_in { ticks = signed_in.ticks + 1 },
    ))
unfolding login tenantflow_api.Examples.World.tokens tenantflow_api.Db.Session.◌>>=◌ request scalar
    tenantflow_api.Db.Constraints.refresh_token_fits tenantflow_api.Prelude.exists strokes
login_authenticates_example =
    login_authenticates ⦃p = signing⦄ "1.2.3.4" 2000 "alice@example.com" "correct horse" start
      signed_in signed_in (record { access_token = "1"; refresh_token = "token" })
      (λ user_id key instant begun until.
        ap (λ n. some (claims_of_user n)) (count_strokes-strokes user_id))
      refl (omega arith) (omega arith)
