-- ===== src/Core/Security.antt =====
-- app/core/security.py: access tokens. PyJWT and argon2 are fields of `Platform`: `jwt_decode`
-- returns the payload of a token whose signature, expiry, issuer and audience it accepts.
use tenantflow_api.Prelude.{ℕ, ◌+◌, ◌*◌, String, not, str_eq}
use tenantflow_api.Core.Errors.{authentication_error}
use tenantflow_api.Core.Claims.{Claims}
use tenantflow_api.Db.Session.{
  Platform, Action, pure, raise_if, or_raise, now, new_token, ◌>>=◌, ◌>>◌,
}

module _ ⦃p : Platform⦄ where
  unfoldable pub create_access_token : ℕ → Action String
  create_access_token user_id = do
    issued ← now
    jti ← new_token
    let claims : Claims = record {
      sub = user_id;
      type = "access";
      iat = issued;
      exp = issued + p.settings.access_token_minutes * 60;
      jti = jti;
      iss = p.settings.jwt_issuer;
      aud = p.settings.jwt_audience;
    }
    pure (p.jwt_encode claims p.settings.jwt_secret)

  unfoldable pub decode_access_token : String → Action ℕ
  decode_access_token token = do
    instant ← now
    let decoded =
        p.jwt_decode token p.settings.jwt_secret instant p.settings.jwt_issuer
          p.settings.jwt_audience
    claims ← or_raise decoded (authentication_error "Invalid or expired access token")
    raise_if (not (str_eq claims.type "access")) (authentication_error "Invalid token type")
    pure claims.sub
