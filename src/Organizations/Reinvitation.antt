-- ===== src/Organizations/Reinvitation.antt =====
-- app/modules/organizations/router.py: `create_invitation` under a repeated key.
use tenantflow_api.Prelude.{
  ℕ, ◌+◌, ◌≡◌, refl, ◌∙◌, sym, ap, subst, String, Option, none, some, List, inl, inr, Bool-cases,
  str_eq, ⊤,
}
use tenantflow_api.Core.Errors.{Error, ok}
use tenantflow_api.Core.Permissions.{Role, members_manage}
use tenantflow_api.Core.Dependencies.{OrganizationContext, require_permission}
use tenantflow_api.Db.Json.{Fields}
use tenantflow_api.Db.Models.{Database, User, IdempotencyRecord, Invitation}
use tenantflow_api.Db.Session.{Platform, World, Action, request, or_raise, raise_if, ◌>>=◌, ◌>>◌}
use tenantflow_api.Db.Session.Triple.{
  Keeps, Triple, Triple-bind, Triple-pure, Triple-gets, Triple-or_raise, Triple-raise_if,
  Triple-write, Triple-flush, Triple-weaken, Triple-after, Keeps-now, Keeps-new_uuid,
  Keeps-new_token, Keeps-publish, request_returns, Triple-run, guard_passes,
}
use tenantflow_api.Access.{require_permission-db}
use tenantflow_api.Audit.Keeps.{record_audit-Keeps}
use tenantflow_api.Audit.{insert_audit_log}
use tenantflow_api.Infra.Idempotency.{IdempotencyState, canonical_request_hash, acquire_idempotency}
use tenantflow_api.Infra.Idempotency.Replay.{IsClaimed, IsHeld, acquire_lem, complete_lem}
use tenantflow_api.Infra.Idempotency.Kept.{IsKept, IsClaimed-of, IsKept-of, later, acquire_later}
use tenantflow_api.Organizations.Schemas.{
  InviteMemberRequest, InvitationResponse, assignable_role, valid_key, validate_key, dump_invite,
  dump_invitation, validate_invitation,
}
use tenantflow_api.Organizations.Service.{
  find_email, find_pending, already_member, clear_pending, invite_member,
}
use tenantflow_api.Organizations.Router.{invite_scope, invite_once, create_invitation}
use tenantflow_api.Organizations.Replay.{validate-dump}

module _ ⦃p : Platform⦄ (Q : List IdempotencyRecord → Type 0) where
  abbrev pub P : Database → Type 0
  P d = Q d.idempotency_records

  clear_pending-Keeps : (pending : Option Invitation) → Keeps P (clear_pending pending)
  unfolding clear_pending
  clear_pending-Keeps none = Triple-pure _ (λ w h. h)
  clear_pending-Keeps (some i) =
      Triple-bind _ _ (Keeps-now P)
        λ _. Triple-bind _ _ (Triple-raise_if _ _ _) λ _. Triple-write _ (λ w h. h.0)

  pub invite_member-Keeps :
      (o : ℕ) (invited_by : User) (email : String) (role : Role)
      → Keeps P (invite_member o invited_by email role)
  unfolding invite_member insert_audit_log
  invite_member-Keeps o invited_by email role =
      Triple-bind _ _ (Triple-gets _ (find_email (p.lower email))) λ existing.
        Triple-bind _ _ (Triple-gets _ (already_member o existing)) λ belongs.
          Triple-bind _ _ (Triple-raise_if _ _ _) λ _.
            Triple-bind _ _ (Triple-gets _ (find_pending o (p.lower email))) λ pending.
              Triple-bind _ _ (Triple-weaken (λ w h. (((h.0).0).0).0) (clear_pending-Keeps pending))
                λ _. Triple-bind _ _ (Keeps-new_token P) λ _. Triple-bind _ _ (Keeps-now P) λ _.
                  Triple-bind _ _ (Keeps-now P) λ _. Triple-bind _ _ (Keeps-new_uuid P) λ _.
                    Triple-bind _ _ (Triple-flush _ _ (λ w h fits. h)) λ _.
                      Triple-bind _ _ (record_audit-Keeps P _ (λ d r e h. h) _ _ _ _ _)
                        λ _. Triple-bind _ _ (Keeps-publish P _) λ _. Triple-pure _ (λ w h. h)

abbrev pub invite_hash : ⦃p : Platform⦄ → InviteMemberRequest → String
invite_hash c = canonical_request_hash (dump_invite c)

module _ ⦃p : Platform⦄ (o : ℕ) (user : User) (payload : InviteMemberRequest) (key : String) where
  abbrev Kept : InvitationResponse → World → Type 0
  Kept x w =
      IsKept validate_invitation (invite_scope o user) key (invite_hash payload) x
        w.db.idempotency_records

  abbrev Held : IdempotencyState → World → Type 0
  Held state w =
      IsHeld (invite_scope o user) key (invite_hash payload) state w.db.idempotency_records

  invite_once_lem :
      (k : ℕ) (status : Option ℕ) (body : Option Fields)
      → let state : IdempotencyState = record {
        record_id = k;
        replay_status = status;
        replay_body = body;
      } in
        Triple (Held state) (invite_once o user payload state) Kept
  unfolding invite_once
  invite_once_lem k none body =
      Triple-bind _ _ (Triple-or_raise _ (assignable_role payload.role) _) λ role.
        Triple-bind _ _
          (Triple-weaken (λ w h. IsClaimed-of refl h.0)
            (invite_member-Keeps (IsClaimed (invite_scope o user) key (invite_hash payload) _) o
              user payload.email role))
          λ i.
            Triple-bind _ _ (complete_lem (invite_scope o user) key (invite_hash payload) _ 201 _)
              λ _. Triple-pure _ (λ w h. record {
                status = 201;
                body =
                    dump_invitation
                      (record { id = i.id; email = i.email; role = i.role; status = i.status });
                answered = h;
                reads =
                    (validate-dump (record { id = 0; name = ""; slug = ""; role = i.role }) _).1;
              })
  invite_once_lem k (some s) body =
      Triple-bind _ _ (Triple-or_raise _ body _)
        λ b. Triple-after (λ x w h. IsKept-of refl h) (Triple-or_raise _ (validate_invitation b) _)

  -- the part of `create_invitation` behind the permission
  abbrev checked : InviteMemberRequest → Action InvitationResponse
  checked c =
      validate_key key
      >> (or_raise (assignable_role c.role) Error.validation
          >> (acquire_idempotency user.id (some o) (invite_scope o user) key (invite_hash c)
              >>= invite_once o user c))

  checked_lem : Triple (λ w. ⊤) (checked payload) (λ x w. Kept x w)
  unfolding validate_key
  checked_lem = Triple-bind _ _ (Triple-raise_if _ _ _) λ _.
      Triple-bind _ _ (Triple-or_raise _ (assignable_role payload.role) _) λ _.
        Triple-bind _ _
          (Triple-weaken (λ w h. tt)
            (acquire_lem (invite_scope o user) key (invite_hash payload) user.id (some o)))
          λ state. invite_once_lem state.record_id state.replay_status state.replay_body

  once_again :
      (other : InviteMemberRequest) (x : InvitationResponse) (w : World)
      → Kept x w
      → (acquire_idempotency user.id (some o) (invite_scope o user) key (invite_hash other)
            >>= invite_once o user other)
          w
        ≡ (
          later (str_eq (invite_hash payload) (invite_hash other)) x,
          record w { ticks = w.ticks + 2 },
        )
  unfolding ◌>>=◌ invite_once
  once_again other x w h =
      let e =
        acquire_later (invite_scope o user) key (invite_hash payload) user.id (some o) h.status
          h.body (invite_hash other) w h.answered in
      let f = h.reads in
      elim (Bool-cases (str_eq (invite_hash payload) (invite_hash other))) [
        | inl y ↦ rw e (rw y (rw f refl))
        | inr n ↦ rw e (rw n refl)
      ]

module _ ⦃p : Platform⦄ where
  -- After an invitation was answered, an invitation by the same user with the same key is answered with
  -- the same response if its payload has the same hash, and refused with a 409 otherwise, as long as the
  -- idempotency records are as the first one left them and the role that it names can be given; either
  -- way it writes nothing and publishes no message.
  pub invitation_repeated :
      (o : ℕ) (payload other : InviteMemberRequest) (key token new : String)
      (w w1 v next next1 : World) (c d : OrganizationContext) (x : InvitationResponse) (role : Role)
      → require_permission members_manage o token w ≡ (ok c, w1)
      → request (create_invitation o token payload key) w ≡ (ok x, v)
      → require_permission members_manage o new next ≡ (ok d, next1)
      → d.user.id ≡ c.user.id
      → assignable_role other.role ≡ some role
      → next.db.idempotency_records ≡ v.db.idempotency_records
      → let (r, after) = request (create_invitation o new other key) next in
        (r ≡ later (str_eq (invite_hash payload) (invite_hash other)) x)
        × (after.db ≡ next.db)
        × (after.jobs ≡ next1.jobs)
  unfolding create_invitation request ◌>>=◌ validate_key raise_if or_raise
  invitation_repeated o payload other key token new w w1 v next next1 c d x role is_user first
        is_user' same_user named same =
      let ran =
        rw is_user at (request_returns (create_invitation o token payload key) w v x first) in
      let h = Triple-run (checked_lem o c.user payload key) w1 v x tt ran in
      let valid = guard_passes (valid_key key) _ _ w1 v x ran in
      let rs = require_permission-db members_manage o new next next1 d is_user' in
      let kept =
        subst
          (λ rs. IsKept validate_invitation (invite_scope o c.user) key (invite_hash payload) x rs)
          (sym same ∙ ap (λ d. d.idempotency_records) (sym rs)) h in
      let k = once_again o c.user payload key other x next1 kept in
      elim (Bool-cases (str_eq (invite_hash payload) (invite_hash other))) [
        | inl y ↦ rw is_user' (rw valid (rw named (rw same_user (rw k (rw y (refl, rs, refl))))))
        | inr n ↦ rw is_user' (rw valid (rw named (rw same_user (rw k (rw n (refl, refl, refl))))))
      ]
