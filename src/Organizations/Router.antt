-- ===== src/Organizations/Router.antt =====
-- app/modules/organizations/router.py. Each handler takes the bearer token of its caller, and
-- is the whole endpoint: its dependencies, its body and what it returns.
use tenantflow_api.Prelude.{
  ℕ, ◌==◌, String, none, some, List, [], ◌∷◌, ◌++◌, Bool, map, select, order_by, ltb, ◌&&◌, ◌||◌,
  if◌then◌else◌, ⊤,
}
use tenantflow_api.Core.Errors.{Error}
use tenantflow_api.Core.Permissions.{owner, members_manage}
use tenantflow_api.Core.Dependencies.{get_user, get_current_user, require_permission}
use tenantflow_api.Db.Models.{Database, Scope, User, Organization, OrganizationMembership}
use tenantflow_api.Db.Session.{Platform, Action, pure, or_raise, gets, ◌>>=◌, ◌>>◌}
use tenantflow_api.Infra.Idempotency.{
  IdempotencyState, canonical_request_hash, acquire_idempotency, complete_idempotency,
}
use tenantflow_api.Organizations.Schemas.{
  OrganizationCreate, OrganizationResponse, InviteMemberRequest, InvitationResponse,
  MembershipResponse, assignable_role, validate_key, dump_create, dump_organization, dump_invite,
  dump_invitation, validate_organization, validate_invitation,
}
use tenantflow_api.Organizations.Service.{
  create_organization, invite_member, accept_invitation, update_membership_role, remove_membership,
}

abbrev pub membership_response : OrganizationMembership → User → MembershipResponse
membership_response m u = record {
  id = m.id;
  user_id = u.id;
  email = u.email;
  full_name = u.full_name;
  role = m.role;
}

-- f"organization:create:{user.id}"
abbrev pub create_scope : User → Scope
create_scope u = record { action = "organization:create"; organization = none; user = u.id }

-- f"invitation:create:{organization_id}:{context.user.id}"
abbrev pub invite_scope : ℕ → User → Scope
invite_scope o u = record { action = "invitation:create"; organization = some o; user = u.id }

-- the memberships of an organization with their users
unfoldable pub join_users :
    Database → List OrganizationMembership → List (OrganizationMembership × User)
unfolding get_user
join_users d [] = []
join_users d (m ∷ ms) =
    let rest = join_users d ms in
    elim (get_user m.user_id d) [ some u ↦ (m, u) ∷ rest | none ↦ rest ]

-- an organization with the role in each membership of it
unfoldable pub with_roles : Organization → List OrganizationMembership → List OrganizationResponse
with_roles o [] = []
with_roles o (m ∷ ms) =
    let rest = with_roles o ms in
    if m.organization_id == o.id
    then record { id = o.id; name = o.name; slug = o.slug; role = m.role } ∷ rest
    else rest

unfoldable pub join_organizations :
    List Organization → List OrganizationMembership → List OrganizationResponse
unfolding with_roles
join_organizations [] ms = []
join_organizations (o ∷ os) ms = with_roles o ms ++ join_organizations os ms

module _ ⦃p : Platform⦄ where
  -- the branches of `create` after the key is acquired
  unfoldable pub create_once :
      User → OrganizationCreate → IdempotencyState → Action OrganizationResponse
  unfolding create_organization complete_idempotency validate_organization
  create_once user payload state = elim state.replay_status [
    | none ↦ do
      organization ← create_organization user payload
      let response : OrganizationResponse = record {
        id = organization.id;
        name = organization.name;
        slug = organization.slug;
        role = owner;
      }
      complete_idempotency state.record_id 201 (dump_organization response)
      pure response
    | some _ ↦ do
      body ←
          or_raise state.replay_body
            (Error.runtime_error "Completed idempotency record is missing its response body")
      or_raise (validate_organization body) Error.validation
  ]

  unfoldable pub create : String → OrganizationCreate → String → Action OrganizationResponse
  unfolding create_once validate_key get_current_user acquire_idempotency canonical_request_hash
  create token payload idempotency_key = do
    user ← get_current_user token
    validate_key idempotency_key
    let request_hash = canonical_request_hash (dump_create payload)
    state ← acquire_idempotency user.id none (create_scope user) idempotency_key request_hash
    create_once user payload state

  unfoldable pub list_organizations : String → Action (List OrganizationResponse)
  unfolding join_organizations get_current_user
  list_organizations token = do
    user ← get_current_user token
    rows ← gets λ d.
        join_organizations
          (order_by (λ (a b : Organization). p.collate a.name b.name) d.organizations)
          (select (λ (m : OrganizationMembership). m.user_id == user.id) d.memberships)
    pure rows

  -- the branches of `create_invitation` after the key is acquired
  unfoldable pub invite_once :
      ℕ → User → InviteMemberRequest → IdempotencyState → Action InvitationResponse
  unfolding invite_member complete_idempotency validate_invitation
  invite_once organization_id user payload state = elim state.replay_status [
    | none ↦ do
      role ← or_raise (assignable_role payload.role) Error.validation
      invitation ← invite_member organization_id user payload.email role
      let response : InvitationResponse = record {
        id = invitation.id;
        email = invitation.email;
        role = invitation.role;
        status = invitation.status;
      }
      complete_idempotency state.record_id 201 (dump_invitation response)
      pure response
    | some _ ↦ do
      body ← or_raise state.replay_body (
          Error.runtime_error
            "Completed invitation idempotency record is missing its response body")
      or_raise (validate_invitation body) Error.validation
  ]

  unfoldable pub create_invitation :
      ℕ → String → InviteMemberRequest → String → Action InvitationResponse
  unfolding invite_once validate_key require_permission acquire_idempotency canonical_request_hash
  create_invitation organization_id token payload idempotency_key = do
    context ← require_permission members_manage organization_id token
    validate_key idempotency_key
    or_raise (assignable_role payload.role) Error.validation
    let request_hash = canonical_request_hash (dump_invite payload)
    state ←
        acquire_idempotency context.user.id (some organization_id)
          (invite_scope organization_id context.user) idempotency_key request_hash
    invite_once organization_id context.user payload state

  unfoldable pub accept_member_invitation : String → String → Action MembershipResponse
  unfolding get_current_user accept_invitation
  accept_member_invitation token raw_token = do
    user ← get_current_user token
    membership ← accept_invitation user raw_token
    pure (membership_response membership user)

  -- .order_by(OrganizationMembership.created_at, User.email)
  abbrev pub earlier : OrganizationMembership × User → OrganizationMembership × User → Bool
  earlier a b =
      ltb (a.0).created_at (b.0).created_at
      || ((a.0).created_at == (b.0).created_at && p.collate (a.1).email (b.1).email)

  unfoldable pub list_members : ℕ → String → Action (List MembershipResponse)
  unfolding require_permission join_users
  list_members organization_id token = do
    context ← require_permission members_manage organization_id token
    gets λ d.
        map (λ (r : OrganizationMembership × User). membership_response r.0 r.1)
          (order_by earlier (
            join_users d (
              select (λ (m : OrganizationMembership). m.organization_id == organization_id)
                d.memberships)))

  unfoldable pub change_member_role : ℕ → ℕ → String → String → Action MembershipResponse
  unfolding require_permission update_membership_role get_user assignable_role
  change_member_role organization_id membership_id token role = do
    context ← require_permission members_manage organization_id token
    new_role ← or_raise (assignable_role role) Error.validation
    membership ← update_membership_role organization_id membership_id context.user new_role
    found ← gets (get_user membership.user_id)
    user ← or_raise found (Error.runtime_error "Membership references a missing user")
    pure (membership_response membership user)

  unfoldable pub delete_member : ℕ → ℕ → String → Action ⊤
  unfolding require_permission remove_membership
  delete_member organization_id membership_id token = do
    context ← require_permission members_manage organization_id token
    remove_membership organization_id membership_id context.user
