-- ===== src/Access.antt =====
-- app/core/dependencies.py and permissions.py: who may call an endpoint of an organization.
use mathlib.Core.List.{Memᴰ}
use tenantflow_api.Core.Claims.{Claims}
use tenantflow_api.Prelude.{
  ◌≢◌, All, scalar-Mem, List, [], ◌∷◌, ◌&&◌, scalar, and_both, Bool-cases, inl, inr, unnegated,
  str_eq, ap, ℕ, ◌≡◌, refl, sym, subst, ◌∙◌, ==→eq, ⊤, String, true, none, some, arith, ◌==◌,
  scalar_passes,
}
use tenantflow_api.Core.Errors.{Error, ok, err, not_found_error}
use tenantflow_api.Core.Permissions.{Role, Permission, has_permission, assert_permission}
use tenantflow_api.Core.Security.{decode_access_token}
use tenantflow_api.Core.Dependencies.{
  OrganizationContext, get_user, find_membership, get_current_user, get_organization_context,
  require_permission,
}
use tenantflow_api.Db.Models.{Database, User, OrganizationMembership}
use tenantflow_api.Db.Session.{Platform, World, Action, request, now, ◌>>=◌}
use tenantflow_api.Db.Session.Triple.{
  bind_returns, request_returns, Triple-run, Keeps, Triple, Triple-bind, Triple-pure, Triple-gets,
  Triple-or_raise, Triple-raise_if, Triple-lift, Triple-after, Keeps-now,
}

-- what a context that was handed out says of the database
pub record IsAuthorized (permission : Permission) (o : ℕ) (c : OrganizationContext) (d : Database)
    : Type 0 where
  pub known : get_user (c.user).id d ≡ some c.user
  pub active : (c.user).is_active ≡ true
  pub belongs : find_membership o (c.user).id d ≡ some c.membership
  pub permitted : has_permission (c.membership).role permission ≡ true

-- a user who is found is found under the own id
get_user_id : (k : ℕ) (d : Database) (u : User) → get_user k d ≡ some u → get_user u.id d ≡ some u
unfolding get_user
get_user_id k d u e =
    let same = ==→eq u.id k (scalar_passes (λ (x : User). x.id == k) d.users u e) in
    subst (λ j. get_user j d ≡ some u) (sym same) e

module _ ⦃p : Platform⦄ (P : Database → Type 0) where
  pub decode_access_token-Keeps : (token : String) → Keeps P (decode_access_token token)
  unfolding decode_access_token
  decode_access_token-Keeps token = Triple-bind _ _ (Keeps-now P) λ instant.
      Triple-bind _ _ (Triple-or_raise _ _ _)
        λ claims. Triple-bind _ _ (Triple-raise_if _ _ _) λ _. Triple-pure _ (λ w h. (h.0).0)

  -- the caller is an active user, and nothing is written
  pub get_current_user_lem :
      (token : String)
      → Triple
          (λ w. P w.db)
          (get_current_user token)
          (λ u w. P w.db × (get_user u.id w.db ≡ some u) × (u.is_active ≡ true))
  unfolding get_current_user
  get_current_user_lem token = Triple-bind _ _ (decode_access_token-Keeps token) λ user_id.
      Triple-bind _ _ (Triple-gets _ (get_user user_id)) λ found.
        Triple-bind _ _ (Triple-or_raise _ found _) λ user.
          Triple-bind _ _ (Triple-raise_if _ _ _) λ _. Triple-pure _ λ w h.
            ((((h.0).0).0), get_user_id user_id w.db user (((h.0).0).1 ∙ (h.0).1), ground arith)

  get_organization_context_lem :
      (o : ℕ) (token : String)
      → Triple
          (λ w. P w.db)
          (get_organization_context o token)
          (λ c w.
            P w.db
            × (get_user (c.user).id w.db ≡ some c.user)
            × ((c.user).is_active ≡ true)
            × (find_membership o (c.user).id w.db ≡ some c.membership))
  unfolding get_organization_context
  get_organization_context_lem o token = Triple-bind _ _ (get_current_user_lem token) λ user.
      Triple-bind _ _ (Triple-gets _ (find_membership o user.id)) λ found.
        Triple-bind _ _ (Triple-or_raise _ found _)
          λ membership. Triple-pure _ λ w h. (((h.0).0).0, ((h.0).0).1, ((h.0).0).2, (h.0).1 ∙ h.1)

  permitted_of :
      (r : Role) (permission : Permission) (u : ⊤)
      → assert_permission r permission ≡ ok u
      → has_permission r permission ≡ true
  unfolding assert_permission
  permitted_of r permission u e = ground arith

  -- A context is handed out only to an active user with a membership of the organization whose
  -- role has the permission; and asking for it writes nothing to the database.
  pub require_permission_lem :
      (permission : Permission) (o : ℕ) (token : String)
      → Triple
          (λ w. P w.db)
          (require_permission permission o token)
          (λ c w. P w.db × IsAuthorized permission o c w.db)
  unfolding require_permission
  require_permission_lem permission o token =
      Triple-bind _ _ (get_organization_context_lem o token) λ c.
        Triple-bind _ _ (Triple-lift _ (assert_permission (c.membership).role permission)) λ u.
          Triple-pure _ λ w h. (
            (h.0).0,
            record {
              known = (h.0).1;
              active = (h.0).2;
              belongs = (h.0).3;
              permitted = permitted_of (c.membership).role permission u h.1;
            },
          )

  pub require_permission-Keeps :
      (permission : Permission) (o : ℕ) (token : String)
      → Triple (λ w. P w.db) (require_permission permission o token) (λ _ w. P w.db)
  require_permission-Keeps permission o token =
      Triple-after (λ c w h. h.0) (require_permission_lem permission o token)

abbrev pub organization_not_found : Error
organization_not_found = not_found_error "ORGANIZATION_NOT_FOUND" "Organization was not found"

module _ ⦃p : Platform⦄ where
  pub get_current_user-db :
      (token : String) (w v : World) (u : User) → get_current_user token w ≡ (ok u, v) → v.db ≡ w.db
  get_current_user-db token w v u e =
      let t = (get_current_user_lem (λ d. d ≡ w.db) token).at w refl in (rw e at t).0

  pub require_permission-db :
      (permission : Permission) (o : ℕ) (token : String) (w v : World) (c : OrganizationContext)
      → require_permission permission o token w ≡ (ok c, v)
      → v.db ≡ w.db
  require_permission-db permission o token w v c e =
      let t = (require_permission-Keeps (λ d. d ≡ w.db) permission o token).at w refl in rw e at t

  refuse_stranger :
      (permission : Permission) (o : ℕ) (token : String) (w v : World) (u : User)
      → get_current_user token w ≡ (ok u, v)
      → find_membership o u.id v.db ≡ none
      → require_permission permission o token w ≡ (err organization_not_found, v)
  unfolding require_permission get_organization_context ◌>>=◌
  refuse_stranger permission o token w v u e none_found = ground arith

  stranger_lem :
      (o u : ℕ) (d : Database)
      → All (λ (m : OrganizationMembership). m.organization_id ≡ o → m.user_id ≢ u) d.memberships
      → find_membership o u d ≡ none
  unfolding find_membership scalar
  stranger_lem o u d h = go d.memberships h
    where
      go :
          (ms : List OrganizationMembership)
          → All (λ (m : OrganizationMembership). m.organization_id ≡ o → m.user_id ≢ u) ms
          → scalar (λ (m : OrganizationMembership). m.organization_id == o && m.user_id == u) ms
            ≡ none
      go [] h = refl
      go (m ∷ ms) h = elim (Bool-cases (m.organization_id == o && m.user_id == u)) [
        | inl y ↦
            let (one, two) = and_both (m.organization_id == o) (m.user_id == u) y in
            absurd (h.0 (==→eq m.organization_id o one) (==→eq m.user_id u two))
        | inr n ↦ rw n (go ms h.1)
      ]

  -- A caller whom no row makes a member of the organization gets the same 404 from every endpoint of
  -- it, whether the organization exists or not, and the database stays as it was.
  pub request_conceals :
      {A : Type 0} (permission : Permission) (o : ℕ) (token : String)
      (handler : OrganizationContext → Action A) (w v : World) (u : User)
      → get_current_user token w ≡ (ok u, v)
      → All
          (λ (m : OrganizationMembership). m.organization_id ≡ o → m.user_id ≢ u.id)
          w.db.memberships
      → request (require_permission permission o token >>= handler) w
        ≡ (err organization_not_found, record v { db = w.db })
  unfolding request ◌>>=◌
  request_conceals permission o token handler w v u e stranger =
      let same = get_current_user-db token w v u e in
      rw (
        refuse_stranger permission o token w v u e (
          subst (λ d. find_membership o u.id d ≡ none) (sym same)
            (stranger_lem o u.id w.db stranger)))

  -- the caller of a token: the user whom the claims name, active, with a row of the memberships for the
  -- organization whose role has the permission
  pub record IsCaller (permission : Permission) (o : ℕ) (token : String) (c : OrganizationContext)
      (w : World) : Type 0 where
    pub claims : Claims
    pub decoded :
        p.jwt_decode token p.settings.jwt_secret
          (p.clock w.ticks)
          p.settings.jwt_issuer
          p.settings.jwt_audience
        ≡ some claims
    pub access : str_eq claims.type "access" ≡ true
    pub user : scalar (λ (u : User). u.id == claims.sub) w.db.users ≡ some c.user
    pub active : (c.user).is_active ≡ true
    pub belongs : Memᴰ c.membership w.db.memberships
    pub organization : (c.membership).organization_id ≡ o
    pub own : (c.membership).user_id ≡ (c.user).id
    pub permitted : has_permission (c.membership).role permission ≡ true

  abbrev Decoded : String → World → ℕ → Type 0
  Decoded token w k =
      (c : Claims) × (p.jwt_decode token p.settings.jwt_secret (p.clock w.ticks)
          p.settings.jwt_issuer p.settings.jwt_audience
        ≡ some c)
      × (str_eq c.type "access" ≡ true)
      × (c.sub ≡ k)

  decode_lem :
      (token : String) (w : World)
      → Triple (λ v. v ≡ w) (decode_access_token token) (λ k v. (v.db ≡ w.db) × Decoded token w k)
  unfolding decode_access_token now
  decode_lem token w =
      Triple-bind {Q = λ instant v. (instant ≡ p.clock w.ticks) × (v.db ≡ w.db)} _ _
        (record { at = λ v h. (ap (λ x. p.clock x.ticks) h, ap (λ x. x.db) h) })
        λ instant. Triple-bind _ _ (Triple-or_raise _ _ _) λ c.
          Triple-bind _ _ (Triple-raise_if _ _ _) λ _. Triple-pure _ λ v h. (
            ((h.0).0).1,
            (
              c,
              ap
                    (λ n.
                      p.jwt_decode token p.settings.jwt_secret n p.settings.jwt_issuer
                        p.settings.jwt_audience)
                    (sym ((h.0).0).0)
                  ∙ (h.0).1,
              unnegated _ h.1,
              refl,
            ),
          )

  abbrev UserOf : String → World → User → Type 0
  UserOf token w u =
      (k : ℕ) × Decoded token w k
      × (scalar (λ (x : User). x.id == k) w.db.users ≡ some u)
      × (u.is_active ≡ true)

  user_lem :
      (token : String) (w : World)
      → Triple (λ v. v ≡ w) (get_current_user token) (λ u v. (v.db ≡ w.db) × UserOf token w u)
  unfolding get_current_user get_user
  user_lem token w = Triple-bind _ _ (decode_lem token w) λ k.
      Triple-bind _ _ (Triple-gets _ (get_user k)) λ found.
        Triple-bind _ _ (Triple-or_raise _ found _) λ u.
          Triple-bind _ _ (Triple-raise_if _ _ _) λ _. Triple-pure _ λ v h.
            let base = ((h.0).0).0 in
            (
              base.0,
              (k, base.1, ap (get_user k) (sym base.0) ∙ ((h.0).0).1 ∙ (h.0).1, unnegated _ h.1),
            )

  caller_lem :
      (permission : Permission) (o : ℕ) (token : String) (w : World)
      → Triple
          (λ v. v ≡ w)
          (require_permission permission o token)
          (λ c v. IsCaller permission o token c w)
  unfolding require_permission get_organization_context find_membership
  caller_lem permission o token w =
      Triple-bind
        {Q = λ c v.
          UserOf token w c.user × (find_membership o (c.user).id w.db ≡ some c.membership)}
        _ _
        (Triple-bind _ _ (user_lem token w) λ u.
          Triple-bind _ _ (Triple-gets _ (find_membership o u.id)) λ found.
            Triple-bind _ _ (Triple-or_raise _ found _) λ m. Triple-pure _ λ v h.
              let base = (h.0).0 in
              (base.1, ap (find_membership o u.id) (sym base.0) ∙ (h.0).1 ∙ h.1))
        λ c. Triple-bind _ _ (Triple-lift _ (assert_permission (c.membership).role permission)) λ u.
          Triple-pure _ λ v h.
            let (k, (claims, decoded, access, subject), user, active) = (h.0).0 in
            let q =
              λ (m : OrganizationMembership). m.organization_id == o && m.user_id == (c.user).id in
            let passed =
              and_both ((c.membership).organization_id == o) ((c.membership).user_id == (c.user).id)
                (scalar_passes q w.db.memberships c.membership (h.0).1) in
            record {
              claims = claims;
              decoded = decoded;
              access = access;
              user =
                  subst (λ j. scalar (λ (x : User). x.id == j) w.db.users ≡ some c.user)
                    (sym subject) user;
              active = active;
              belongs = scalar-Mem q w.db.memberships c.membership (h.0).1;
              organization = ==→eq _ o passed.0;
              own = ==→eq _ (c.user).id passed.1;
              permitted = permitted_of (λ d. d ≡ w.db) (c.membership).role permission u h.1;
            }

  -- An endpoint of an organization answers only to a caller whose token decodes to access claims that
  -- name an active user with a membership of the organization, whose role has the permission of the
  -- endpoint, as the database stood when the request came in; and its answer is its handler's for that
  -- caller.
  pub request_authorizes :
      {A : Type 0} (permission : Permission) (o : ℕ) (token : String)
      (handler : OrganizationContext → Action A) (w v : World) (x : A)
      → request (require_permission permission o token >>= handler) w ≡ (ok x, v)
      → (c : OrganizationContext) × IsCaller permission o token c w
        × ((u : World) × (u.db ≡ w.db) × (handler c u ≡ (ok x, v)))
  request_authorizes permission o token handler w v x e =
      let (c, u, asked, rest) =
        bind_returns (require_permission permission o token) handler w v x
          (request_returns (require_permission permission o token >>= handler) w v x e) in
      (
        c,
        Triple-run (caller_lem permission o token w) w u c refl asked,
        (u, require_permission-db permission o token w u c asked, rest),
      )
