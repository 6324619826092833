-- ===== src/Auth/Service.antt =====
-- app/modules/auth/service.py.
use tenantflow_api.Prelude.{
  ℕ, ◌+◌, ◌*◌, ◌==◌, String, Bool, true, not, ◌||◌, Option, none, some, [], ◌∷◌, ◌++◌, str_eq, leb,
  present, scalar, update, ⊤,
}
use tenantflow_api.Core.Errors.{authentication_error, conflict_error}
use tenantflow_api.Core.Security.{create_access_token}
use tenantflow_api.Core.Dependencies.{get_user}
use tenantflow_api.Db.Models.{Database, User, RefreshToken}
use tenantflow_api.Db.Constraints.{user_fits, refresh_token_fits}
use tenantflow_api.Db.Session.{
  Platform, Action, pure, raise_if, or_raise, gets, write, flush, now, new_uuid, new_token, ◌>>=◌,
  ◌>>◌,
}

pub record RegisterRequest : Type 0 where
  pub email : String
  pub password : String
  pub full_name : String

pub record TokenPair : Type 0 where
  pub access_token : String
  pub refresh_token : String

abbrev pub insert_user : User → Database → Database
insert_user r d = record d { users = d.users ++ r ∷ [] }

abbrev pub insert_refresh_token : RefreshToken → Database → Database
insert_refresh_token r d = record d { refresh_tokens = d.refresh_tokens ++ r ∷ [] }

abbrev pub has_token_id : ℕ → RefreshToken → Bool
has_token_id k t = t.id == k

abbrev pub revoke : ℕ → Option String → RefreshToken → RefreshToken
revoke instant successor t = record t { revoked_at = some instant; replaced_by_hash = successor }

-- UPDATE refresh_tokens SET revoked_at = …, replaced_by_hash = … WHERE id = …
unfoldable pub revoke_row : ℕ → ℕ → Option String → Database → Database
revoke_row k instant successor d = record d {
  refresh_tokens = update (has_token_id k) (revoke instant successor) d.refresh_tokens;
}

unfoldable pub find_account : String → Database → Option User
find_account email d = scalar (λ (u : User). str_eq u.email email) d.users

unfoldable pub find_refresh_token : String → Database → Option RefreshToken
find_refresh_token fingerprint d =
    scalar (λ (t : RefreshToken). str_eq t.token_hash fingerprint) d.refresh_tokens

-- `token.revoked_at is not None or token.expires_at <= now`
abbrev pub is_spent : ℕ → RefreshToken → Bool
is_spent instant t = present t.revoked_at || leb t.expires_at instant

module _ ⦃p : Platform⦄ where
  unfoldable pub register_user : RegisterRequest → Action User
  unfolding find_account
  register_user payload = do
    existing ← gets (find_account (p.lower payload.email))
    raise_if (present existing)
        (conflict_error "EMAIL_ALREADY_REGISTERED" "An account already uses this email")
    created_at ← now
    id ← new_uuid
    let user : User = record {
      id = id;
      created_at = created_at;
      email = p.lower payload.email;
      password_hash = p.hash_password payload.password;
      full_name = p.strip payload.full_name;
      is_active = true;
    }
    flush (λ d. user_fits d user) (insert_user user)
    pure user

  unfoldable pub authenticate : String → String → Action User
  unfolding find_account
  authenticate email password = do
    found ← gets (find_account (p.lower email))
    user ← or_raise found (authentication_error "Invalid email or password")
    raise_if (not (p.verify_password password user.password_hash))
        (authentication_error "Invalid email or password")
    raise_if (not user.is_active) (authentication_error "User account is disabled")
    pure user

  -- `family_id or uuid4()`
  unfoldable pub choose_family : Option ℕ → Action ℕ
  choose_family (some family_id) = pure family_id
  choose_family none = new_uuid

  unfoldable pub issue_token_pair : User → Option ℕ → Action TokenPair
  unfolding choose_family create_access_token
  issue_token_pair user family = do
    raw_refresh ← new_token
    instant ← now
    family_id ← choose_family family
    id ← new_uuid
    let refresh : RefreshToken = record {
      id = id;
      user_id = user.id;
      token_hash = p.token_fingerprint raw_refresh;
      family_id = family_id;
      expires_at = instant + p.settings.refresh_token_days * 86400;
      revoked_at = none;
      replaced_by_hash = none;
      created_at = instant;
    }
    flush (λ d. refresh_token_fits d refresh) (insert_refresh_token refresh)
    access_token ← create_access_token user.id
    pure (record { access_token = access_token; refresh_token = raw_refresh })

  unfoldable pub rotate_refresh_token : String → Action TokenPair
  unfolding find_refresh_token get_user issue_token_pair revoke_row
  rotate_refresh_token raw_token = do
    found ← gets (find_refresh_token (p.token_fingerprint raw_token))
    instant ← now
    token ← or_raise found (authentication_error "Refresh token is invalid or expired")
    raise_if (is_spent instant token) (authentication_error "Refresh token is invalid or expired")
    account ← gets (get_user token.user_id)
    user ← or_raise account (authentication_error "User account is unavailable")
    raise_if (not user.is_active) (authentication_error "User account is unavailable")
    pair ← issue_token_pair user (some token.family_id)
    write (revoke_row token.id instant (some (p.token_fingerprint pair.refresh_token)))
    pure pair

  -- a token that is unknown or revoked already is passed over in silence
  unfoldable pub revoke_found : Option RefreshToken → Action ⊤
  unfolding revoke_row
  revoke_found none = pure tt
  revoke_found (some token) = elim token.revoked_at [
    | none ↦ do instant ← now; write (revoke_row token.id instant token.replaced_by_hash)
    | some _ ↦ pure tt
  ]

  unfoldable pub revoke_refresh_token : String → Action ⊤
  unfolding find_refresh_token revoke_found
  revoke_refresh_token raw_token = do
    found ← gets (find_refresh_token (p.token_fingerprint raw_token))
    revoke_found found
