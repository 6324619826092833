-- ===== src/Organizations/Replay.antt =====
-- app/modules/organizations/router.py: `create` under a repeated key.
use tenantflow_api.Prelude.{
  ℕ, ◌+◌, ◌≡◌, refl, ◌∙◌, sym, ap, subst, String, Option, none, some, List, inl, inr, Bool-cases, ⊤,
  str_eq, str_eq_refl,
}
use tenantflow_api.Core.Errors.{ok}
use tenantflow_api.Core.Permissions.{Role, owner, admin, member, viewer}
use tenantflow_api.Core.Dependencies.{get_current_user}
use tenantflow_api.Db.Json.{Fields, get_field}
use tenantflow_api.Db.Models.{
  Database, User, IdempotencyRecord, InvitationStatus, pending, accepted, revoked, expired,
}
use tenantflow_api.Db.Session.{Platform, World, Action, request, raise_if, ◌>>=◌, ◌>>◌}
use tenantflow_api.Db.Session.Triple.{
  Keeps, Triple, Triple-bind, Triple-pure, Triple-gets, Triple-or_raise, Triple-raise_if,
  Triple-flush, Triple-weaken, Triple-after, Keeps-now, Keeps-new_uuid, request_returns, Triple-run,
  guard_passes,
}
use tenantflow_api.Audit.Keeps.{record_audit-Keeps}
use tenantflow_api.Audit.{insert_audit_log}
use tenantflow_api.Access.{get_current_user-db}
use tenantflow_api.Infra.Idempotency.{IdempotencyState, canonical_request_hash, acquire_idempotency}
use tenantflow_api.Infra.Idempotency.Replay.{IsClaimed, IsHeld, acquire_lem, complete_lem}
use tenantflow_api.Infra.Idempotency.Kept.{IsKept, IsClaimed-of, IsKept-of, later, acquire_later}
use tenantflow_api.Organizations.Schemas.{
  OrganizationCreate, OrganizationResponse, InvitationResponse, parse_role, parse_status, valid_key,
  role_text, status_text, validate_key, dump_create, dump_organization, dump_invitation,
  validate_organization, validate_invitation,
}
use tenantflow_api.Organizations.Service.{find_slug, create_organization}
use tenantflow_api.Organizations.Router.{create_scope, create_once, create}

parse-role_text : (r : Role) → parse_role (role_text r) ≡ some r
unfolding parse_role
parse-role_text owner = refl
parse-role_text admin = refl
parse-role_text member = refl
parse-role_text viewer = refl

parse-status_text : (s : InvitationStatus) → parse_status (status_text s) ≡ some s
unfolding parse_status
parse-status_text pending = refl
parse-status_text accepted = refl
parse-status_text revoked = refl
parse-status_text expired = refl

-- Reading back the JSON of a response gives the response, for organizations and invitations.
pub validate-dump :
    (r : OrganizationResponse) (i : InvitationResponse)
    → (validate_organization (dump_organization r) ≡ some r)
      × (validate_invitation (dump_invitation i) ≡ some i)
unfolding validate_organization validate_invitation get_field
validate-dump r i = (
  rw (parse-role_text r.role) refl,
  rw (parse-role_text i.role) (rw (parse-status_text i.status) refl),
)

module _ ⦃p : Platform⦄ (Q : List IdempotencyRecord → Type 0) where
  abbrev KeepsKeys : {A : Type 0} → Action A → Type 0
  KeepsKeys m = Keeps (λ d. Q d.idempotency_records) m

  create_organization-Keeps :
      (user : User) (payload : OrganizationCreate) → KeepsKeys (create_organization user payload)
  unfolding create_organization insert_audit_log
  create_organization-Keeps user payload =
      let P = λ (d : Database). Q d.idempotency_records in
      Triple-bind _ _ (Triple-gets _ (find_slug payload.slug)) λ taken.
        Triple-bind _ _ (Triple-raise_if _ _ _) λ _.
          Triple-bind _ _ (Triple-weaken (λ w h. (h.0).0) (Keeps-now P)) λ _.
            Triple-bind _ _ (Keeps-new_uuid P) λ _.
              Triple-bind _ _ (Triple-flush _ _ (λ w h fits. h)) λ _.
                Triple-bind _ _ (Keeps-now P) λ _. Triple-bind _ _ (Keeps-new_uuid P) λ _.
                  Triple-bind _ _ (Triple-flush _ _ (λ w h fits. h)) λ _.
                    Triple-bind _ _ (record_audit-Keeps P _ (λ d r e h. h) _ _ _ _ _)
                      λ _. Triple-pure _ (λ w h. h)

abbrev pub hash_of : ⦃p : Platform⦄ → OrganizationCreate → String
hash_of c = canonical_request_hash (dump_create c)

module _ ⦃p : Platform⦄ (user : User) (payload : OrganizationCreate) (key : String) where
  abbrev hash : String
  hash = hash_of payload

  abbrev Kept : OrganizationResponse → World → Type 0
  Kept x w = IsKept validate_organization (create_scope user) key hash x w.db.idempotency_records

  abbrev Held : IdempotencyState → World → Type 0
  Held state w = IsHeld (create_scope user) key hash state w.db.idempotency_records

  create_once_lem :
      (k : ℕ) (status : Option ℕ) (body : Option Fields)
      → let state : IdempotencyState = record {
        record_id = k;
        replay_status = status;
        replay_body = body;
      } in
        Triple (Held state) (create_once user payload state) Kept
  unfolding create_once
  create_once_lem k none body =
      Triple-bind _ _
        (Triple-weaken (λ w h. IsClaimed-of refl h)
          (create_organization-Keeps (IsClaimed (create_scope user) key hash _) user payload))
        λ o. Triple-bind _ _ (complete_lem (create_scope user) key hash _ 201 _) λ _.
          Triple-pure _ (λ w h. record {
            status = 201;
            body =
                dump_organization
                  (record { id = o.id; name = o.name; slug = o.slug; role = owner });
            answered = h;
            reads =
                (validate-dump _ (record { id = 0; email = ""; role = owner; status = pending })).0;
          })
  create_once_lem k (some s) body =
      Triple-bind _ _ (Triple-or_raise _ body _) λ b.
        Triple-after (λ x w h. IsKept-of refl h) (Triple-or_raise _ (validate_organization b) _)

  -- the part of `create` behind the authentication
  abbrev created : Action OrganizationResponse
  created =
      validate_key key
      >> (acquire_idempotency user.id none (create_scope user) key hash
          >>= create_once user payload)

  created_lem : Triple (λ w. ⊤) created (λ x w. Kept x w)
  unfolding validate_key
  created_lem = Triple-bind _ _ (Triple-raise_if _ _ _) λ _.
      Triple-bind _ _
        (Triple-weaken (λ w h. tt) (acquire_lem (create_scope user) key hash user.id none))
        λ state. create_once_lem state.record_id state.replay_status state.replay_body

  created_again :
      (other : OrganizationCreate) (x : OrganizationResponse) (w : World)
      → Kept x w
      → (acquire_idempotency user.id none (create_scope user) key (hash_of other)
            >>= create_once user other)
          w
        ≡ (later (str_eq hash (hash_of other)) x, record w { ticks = w.ticks + 2 })
  unfolding ◌>>=◌ create_once
  created_again other x w h =
      let e =
        acquire_later (create_scope user) key hash user.id none h.status h.body (hash_of other) w
          h.answered in
      let f = h.reads in
      elim (Bool-cases (str_eq hash (hash_of other))) [
        | inl y ↦ rw e (rw y (rw f refl))
        | inr n ↦ rw e (rw n refl)
      ]

  -- After a create of an organization that succeeded, a create of the same user with the same key
  -- is answered with the same response if its payload has the same hash, and refused with a 409
  -- otherwise, as long as the idempotency records are as the first one left them, whatever the rest
  -- of the database has become; either way it writes nothing.
  pub create_repeated :
      (other : OrganizationCreate) (token again : String) (w w1 v next next1 : World)
      (x : OrganizationResponse)
      → get_current_user token w ≡ (ok user, w1)
      → request (create token payload key) w ≡ (ok x, v)
      → get_current_user again next ≡ (ok user, next1)
      → next.db.idempotency_records ≡ v.db.idempotency_records
      → let (r, after) = request (create again other key) next in
        (r ≡ later (str_eq (hash_of payload) (hash_of other)) x) × (after.db ≡ next.db)
  unfolding create request ◌>>=◌ validate_key raise_if
  create_repeated other token again w w1 v next next1 x is_user first is_user' same =
      let ran = rw is_user at (request_returns (create token payload key) w v x first) in
      let h = Triple-run created_lem w1 v x tt ran in
      let valid = guard_passes (valid_key key) _ _ w1 v x ran in
      let rs = get_current_user-db again next next1 user is_user' in
      let kept =
        subst (λ rs. IsKept validate_organization (create_scope user) key hash x rs)
          (sym same ∙ ap (λ d. d.idempotency_records) (sym rs)) h in
      let k = created_again other x next1 kept in
      elim (Bool-cases (str_eq (hash_of payload) (hash_of other))) [
        | inl y ↦ rw is_user' (rw valid (rw k (rw y (refl, rs))))
        | inr n ↦ rw is_user' (rw valid (rw k (rw n (refl, refl))))
      ]

  -- A create that succeeded is answered again, with the same response, whenever the same user
  -- repeats it with the same key and payload, as long as the idempotency records are as the first
  -- one left them, whatever the rest of the database has become; and the repetition writes nothing.
  create_replayed :
      (token again : String) (w w1 v next next1 : World) (x : OrganizationResponse)
      → get_current_user token w ≡ (ok user, w1)
      → request (create token payload key) w ≡ (ok x, v)
      → get_current_user again next ≡ (ok user, next1)
      → next.db.idempotency_records ≡ v.db.idempotency_records
      → let (r, after) = request (create again payload key) next in
        (r ≡ ok x) × (after.db ≡ next.db)
  create_replayed token again w w1 v next next1 x is_user first is_user' same =
      let h = create_repeated payload token again w w1 v next next1 x is_user first is_user' same in
      (h.0 ∙ ap (λ b. later b x) (str_eq_refl (hash_of payload)), h.1)
