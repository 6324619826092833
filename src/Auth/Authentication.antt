-- ===== src/Auth/Authentication.antt =====
-- app/modules/auth/router.py and core/dependencies.py: a token that a login answered authenticates its
-- user.
use tenantflow_api.Prelude.{
  ℕ, ◌+◌, ◌*◌, ◌≡◌, refl, ◌∙◌, sym, ap, subst, ◌≤◌, ◌<◌, String, Bool, true, false, none, some,
  arith, if◌then◌else◌, unnegated, Option, scalar, ◌==◌, Bool-cases, str_eq, inl, inr,
}
use tenantflow_api.Core.Errors.{Error, ok, Result, err, authentication_error}
use tenantflow_api.Core.Claims.{Claims}
use tenantflow_api.Core.Security.{create_access_token, decode_access_token}
use tenantflow_api.Core.Dependencies.{get_user, get_current_user}
use tenantflow_api.Db.Models.{User, Database}
use tenantflow_api.Db.Session.{
  Platform, World, request, ◌>>=◌, ◌>>◌, now, new_uuid, new_token, count_metric, raise,
}
use tenantflow_api.Db.Session.Triple.{
  request_returns, Triple, Triple-bind, Triple-pure, Triple-gets, Triple-or_raise, Triple-raise_if,
  Triple-flush, Triple-after, Triple-run, Triple-raise,
}
use tenantflow_api.Auth.Service.{
  TokenPair, find_account, authenticate, choose_family, issue_token_pair,
}
use tenantflow_api.Auth.Router.{limit_login, issue_login_tokens, login}

module _ ⦃p : Platform⦄ where
  abbrev claims_of : ℕ → ℕ → String → Claims
  claims_of user_id issued jti = record {
    sub = user_id;
    type = "access";
    iat = issued;
    exp = issued + p.settings.access_token_minutes * 60;
    jti = jti;
    iss = p.settings.jwt_issuer;
    aud = p.settings.jwt_audience;
  }

  -- PyJWT accepts a token of these claims, with the key, from its time of issue until its expiry
  abbrev pub IsJwt : Claims → Type 0
  IsJwt c =
      (key : String) (instant : ℕ)
      → c.iat ≤ instant
      → instant < c.exp
      → p.jwt_decode (p.jwt_encode c key) key instant c.iss c.aud ≡ some c

  abbrev At : ℕ → World → Type 0
  At n w = w.ticks ≡ n

  now_lem : (n : ℕ) → Triple (At n) now (λ instant w. (instant ≡ p.clock n) × At (n + 1) w)
  unfolding now
  now_lem n = record { at = λ w h. (ap p.clock h, ap (λ k. k + 1) h) }

  new_uuid_lem : (n : ℕ) → Triple (At n) new_uuid (λ _ w. At (n + 1) w)
  unfolding new_uuid
  new_uuid_lem n = record { at = λ w h. ap (λ k. k + 1) h }

  new_token_lem : (n : ℕ) → Triple (At n) new_token (λ _ w. At (n + 1) w)
  unfolding new_token
  new_token_lem n = record { at = λ w h. ap (λ k. k + 1) h }

  -- the claims of the access token that is created when the n-th value of the platform is next
  abbrev pub issued_claims : ℕ → ℕ → Claims
  issued_claims user_id n = claims_of user_id (p.clock n) (p.token_urlsafe (n + 1))

  abbrev IssuedAt : ℕ → ℕ → String → Type 0
  IssuedAt user_id n token = token ≡ p.jwt_encode (issued_claims user_id n) p.settings.jwt_secret

  create_lem :
      (user_id n : ℕ)
      → Triple (At n) (create_access_token user_id) (λ token w. IssuedAt user_id n token)
  unfolding create_access_token new_token
  create_lem user_id n = Triple-bind _ _ (now_lem n) λ issued.
      Triple-bind {Q = λ jti w. (issued ≡ p.clock n) × (jti ≡ p.token_urlsafe (n + 1))} _ _
        (record { at = λ w h. (h.0, ap p.token_urlsafe h.1) })
        λ jti.
          Triple-pure _
            (λ w h i. p.jwt_encode (claims_of user_id (h.0 i) (h.1 i)) p.settings.jwt_secret)

  issue_lem :
      (user : User) (n : ℕ)
      → Triple
          (At n)
          (issue_token_pair user none)
          (λ pair w. IssuedAt user.id (n + 4) pair.access_token)
  unfolding issue_token_pair choose_family
  issue_lem user n = Triple-bind _ _ (new_token_lem n) λ raw.
      Triple-bind _ _ (Triple-after (λ t w h. h.1) (now_lem (n + 1))) λ instant.
        Triple-bind _ _ (new_uuid_lem (n + 1 + 1)) λ family.
          Triple-bind _ _ (new_uuid_lem (n + 1 + 1 + 1)) λ id.
            Triple-bind _ _ (Triple-flush {Q = λ _ w. At (n + 1 + 1 + 1 + 1) w} _ _ (λ w h fits. h))
              λ _. Triple-bind _ _ (create_lem user.id (n + 1 + 1 + 1 + 1)) λ token.
                Triple-pure _ (λ w h. subst (λ k. IssuedAt user.id k token) (omega arith) h)

  -- the user whose credentials were accepted
  abbrev Accepted : String → String → Database → User → Type 0
  Accepted email password d u =
      (find_account (p.lower email) d ≡ some u)
      × (p.verify_password password u.password_hash ≡ true)
      × (u.is_active ≡ true)

  authenticate_lem :
      (email password : String) (n : ℕ) (d : Database)
      → Triple
          (λ w. At n w × (w.db ≡ d))
          (authenticate email password)
          (λ u w. At n w × Accepted email password d u)
  unfolding authenticate
  authenticate_lem email password n d =
      Triple-bind _ _ (Triple-gets _ (find_account (p.lower email))) λ found.
        Triple-bind _ _ (Triple-or_raise _ found _) λ u.
          Triple-bind _ _ (Triple-raise_if _ _ _) λ _. Triple-bind _ _ (Triple-raise_if _ _ _) λ _.
            Triple-pure _ λ w h.
              let base = ((h.0).0).0 in
              (
                (base.0).0,
                (
                  ap (find_account (p.lower email)) (sym (base.0).1) ∙ base.1 ∙ ((h.0).0).1,
                  unnegated _ (h.0).1,
                  unnegated _ h.1,
                ),
              )

  -- what a login says of the pair that it answers
  abbrev LoggedIn : String → String → ℕ → Database → TokenPair → Type 0
  LoggedIn email password n d pair =
      (u : User) × Accepted email password d u × IssuedAt u.id (n + 4) pair.access_token

  tokens_lem :
      (allowed : Bool) (seconds : ℕ) (email password : String) (n : ℕ) (d : Database)
      → Triple
          (λ w. At n w × (w.db ≡ d))
          (if allowed
            then (authenticate email password >>= λ user. issue_token_pair user none)
            else (count_metric "rate_limit_rejections" "login_ip"
                >> raise (Error.http 429 "Too many login attempts" (some seconds))))
          (λ pair w. LoggedIn email password n d pair)
  unfolding count_metric
  tokens_lem true seconds email password n d =
      Triple-bind _ _ (authenticate_lem email password n d) λ u. record {
        at = λ w h. (Triple-after {P = At n} (λ pair v k. (u, h.1, k)) (issue_lem u n)).at w h.0;
      }
  tokens_lem false seconds email password n d =
      Triple-bind {Q = λ _ w. At n w × (w.db ≡ d)} _ _ (record { at = λ w h. h })
        λ _. Triple-raise _

  login_lem :
      (client_ip : String) (now_ms : ℕ) (email password : String) (n : ℕ) (d : Database)
      → Triple
          (λ w. At n w × (w.db ≡ d))
          (login client_ip now_ms email password)
          (λ pair w. LoggedIn email password n d pair)
  unfolding login issue_login_tokens limit_login
  login_lem client_ip now_ms email password n d =
      Triple-bind {Q = λ _ w. At n w × (w.db ≡ d)} _ _ (record { at = λ w h. h })
        λ result. tokens_lem result.allowed result.retry_after email password n d

  -- reading the token back
  decode_lem :
      (user_id n : ℕ) (token : String) (w : World)
      → IsJwt (issued_claims user_id n)
      → IssuedAt user_id n token
      → p.clock n ≤ p.clock w.ticks
      → p.clock w.ticks < p.clock n + p.settings.access_token_minutes * 60
      → decode_access_token token w ≡ (ok user_id, record w { ticks = w.ticks + 1 })
  unfolding decode_access_token ◌>>=◌
  decode_lem user_id n token w law issued begun until =
      let c = issued_claims user_id n in
      let read : p.jwt_decode token p.settings.jwt_secret (p.clock w.ticks) p.settings.jwt_issuer
            p.settings.jwt_audience
          ≡ some c =
        ap
          (λ t.
            p.jwt_decode t p.settings.jwt_secret (p.clock w.ticks) p.settings.jwt_issuer
              p.settings.jwt_audience)
          issued
        ∙ law p.settings.jwt_secret (p.clock w.ticks) begun until in
      rw read refl

  -- what a token of a user gets, by the row that the user has then
  abbrev pub standing : Option User → Result User
  standing none = err (authentication_error "User account is unavailable")
  standing (some u) =
      if u.is_active then ok u else err (authentication_error "User account is unavailable")

  standing_lem :
      (user_id : ℕ) (token : String) (w : World) (found : Option User)
      → decode_access_token token w ≡ (ok user_id, record w { ticks = w.ticks + 1 })
      → get_user user_id w.db ≡ found
      → get_current_user token w ≡ (standing found, record w { ticks = w.ticks + 1 })
  unfolding get_current_user ◌>>=◌
  standing_lem user_id token w none decoded e = rw decoded (rw e refl)
  standing_lem user_id token w (some u) decoded e = elim (Bool-cases u.is_active) [
    | inl y ↦ rw decoded (rw e (rw y refl))
    | inr n ↦ rw decoded (rw e (rw n refl))
  ]

  -- A login that answers has found the account of the e-mail address, active, and its password hash
  -- accepted the password; and from then on until it runs out, the access token authenticates that user,
  -- by the row that the user has at the time: it is refused only if the row is gone or not active. It is
  -- assumed that PyJWT accepts a token of such claims from its time of issue until its expiry.
  pub login_authenticates :
      (client_ip : String) (now_ms : ℕ) (email password : String) (w v later : World)
      (pair : TokenPair)
      → ((user_id : ℕ) → IsJwt (issued_claims user_id (w.ticks + 4)))
      → request (login client_ip now_ms email password) w ≡ (ok pair, v)
      → p.clock (w.ticks + 4) ≤ p.clock later.ticks
      → p.clock later.ticks < p.clock (w.ticks + 4) + p.settings.access_token_minutes * 60
      → (user : User) × (scalar (λ (u : User). str_eq u.email (p.lower email)) w.db.users
          ≡ some user)
        × (p.verify_password password user.password_hash ≡ true)
        × (user.is_active ≡ true)
        × (get_current_user pair.access_token later ≡ (
          standing (scalar (λ (u : User). u.id == user.id) later.db.users),
          record later { ticks = later.ticks + 1 },
        ))
  unfolding find_account get_user
  login_authenticates client_ip now_ms email password w v later pair law ran begun before_end =
      let (u, (found, accepted, enabled), issued) =
        Triple-run (login_lem client_ip now_ms email password w.ticks w.db) w v pair (refl, refl)
          (request_returns (login client_ip now_ms email password) w v pair ran) in
      let decoded =
        decode_lem u.id (w.ticks + 4) pair.access_token later (law u.id) issued begun before_end in
      (
        u,
        found,
        accepted,
        enabled,
        standing_lem u.id pair.access_token later
            (scalar (λ (x : User). x.id == u.id) later.db.users) decoded refl,
      )
