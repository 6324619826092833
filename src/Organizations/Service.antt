-- ===== src/Organizations/Service.antt =====
-- app/modules/organizations/service.py.
use tenantflow_api.Prelude.{
  ℕ, ◌+◌, ◌*◌, ◌==◌, String, Bool, false, not, ◌&&◌, Option, none, some, [], ◌∷◌, ◌++◌, str_eq, leb,
  ltb, present, scalar, update, delete, if◌then◌else◌, ⊤,
}
use tenantflow_api.Core.Errors.{conflict_error, forbidden_error, not_found_error}
use tenantflow_api.Core.Permissions.{Role, owner, is_owner}
use tenantflow_api.Core.Dependencies.{find_membership}
use tenantflow_api.Db.Json.{end, field, str, uuid}
use tenantflow_api.Db.Models.{
  Database, User, Organization, OrganizationMembership, Invitation, InvitationStatus, is_pending,
}
use tenantflow_api.Db.Constraints.{organization_fits, membership_fits, invitation_fits}
use tenantflow_api.Db.Session.{
  Platform, Job, Action, pure, raise, raise_if, or_raise, gets, write, flush, now, new_uuid,
  new_token, publish, ◌>>=◌, ◌>>◌,
}
use tenantflow_api.Audit.{record_audit}
use tenantflow_api.Organizations.Schemas.{OrganizationCreate, role_text}

abbrev pub insert_organization : Organization → Database → Database
insert_organization r d = record d { organizations = d.organizations ++ r ∷ [] }

abbrev pub insert_membership : OrganizationMembership → Database → Database
insert_membership r d = record d { memberships = d.memberships ++ r ∷ [] }

abbrev pub insert_invitation : Invitation → Database → Database
insert_invitation r d = record d { invitations = d.invitations ++ r ∷ [] }

-- UPDATE invitations SET status = … WHERE id = …
abbrev pub set_invitation_status : ℕ → InvitationStatus → Database → Database
set_invitation_status k s d = record d {
  invitations = update (λ (i : Invitation). i.id == k) (λ i. record i { status = s }) d.invitations;
}

-- UPDATE organization_memberships SET role = … WHERE id = …
abbrev pub set_role : ℕ → Role → Database → Database
set_role k r d = record d {
  memberships =
      update (λ (m : OrganizationMembership). m.id == k) (λ m. record m { role = r }) d.memberships;
}

abbrev pub delete_membership : ℕ → Database → Database
delete_membership k d = record d {
  memberships = delete (λ (m : OrganizationMembership). m.id == k) d.memberships;
}

unfoldable pub find_slug : String → Database → Option Organization
find_slug slug d = scalar (λ (o : Organization). str_eq o.slug slug) d.organizations

unfoldable pub find_email : String → Database → Option User
find_email email d = scalar (λ (u : User). str_eq u.email email) d.users

unfoldable pub find_pending : ℕ → String → Database → Option Invitation
find_pending o email d =
    scalar
      (λ (i : Invitation). i.organization_id == o && str_eq i.email email && is_pending i.status)
      d.invitations

unfoldable pub find_token : String → Database → Option Invitation
find_token fingerprint d =
    scalar (λ (i : Invitation). str_eq i.token_hash fingerprint) d.invitations

-- a membership by its id, within the organization
unfoldable pub find_member : ℕ → ℕ → Database → Option OrganizationMembership
find_member o k d =
    scalar (λ (m : OrganizationMembership). m.id == k && m.organization_id == o) d.memberships

module _ ⦃p : Platform⦄ where
  unfoldable pub create_organization : User → OrganizationCreate → Action Organization
  create_organization user payload = do
    taken ← gets (find_slug payload.slug)
    raise_if (present taken)
        (conflict_error "ORGANIZATION_SLUG_EXISTS" "Organization slug is already in use")
    created_at ← now
    id ← new_uuid
    let organization : Organization = record {
      id = id;
      created_at = created_at;
      name = p.strip payload.name;
      slug = payload.slug;
      created_by = user.id;
    }
    flush (λ d. organization_fits d organization) (insert_organization organization)
    joined_at ← now
    membership_id ← new_uuid
    let membership : OrganizationMembership = record {
      id = membership_id;
      created_at = joined_at;
      organization_id = id;
      user_id = user.id;
      role = owner;
    }
    flush (λ d. membership_fits d membership) (insert_membership membership)
    record_audit id (some user.id) "organization.created" "organization" (some id) end
    pure organization

  -- the user of the address is a member already
  unfoldable pub already_member : ℕ → Option User → Database → Bool
  unfolding find_membership
  already_member o none d = false
  already_member o (some u) d = present (find_membership o u.id d)

  -- the pending invitation, if there is one: it has run out, or the request is refused
  unfoldable pub clear_pending : Option Invitation → Action ⊤
  clear_pending none = pure tt
  clear_pending (some i) = do
    instant ← now
    raise_if (ltb instant i.expires_at) (
        conflict_error "INVITATION_ALREADY_PENDING"
          "A pending invitation already exists for this email")
    write (set_invitation_status i.id InvitationStatus.expired)

  unfoldable pub invite_member : ℕ → User → String → Role → Action Invitation
  unfolding find_email already_member find_pending clear_pending
  invite_member organization_id invited_by email role = do
    let normalized_email = p.lower email
    existing ← gets (find_email normalized_email)
    belongs ← gets (already_member organization_id existing)
    raise_if belongs
        (conflict_error "ALREADY_A_MEMBER" "This user already belongs to the organization")
    pending ← gets (find_pending organization_id normalized_email)
    clear_pending pending
    raw_token ← new_token
    instant ← now
    created_at ← now
    id ← new_uuid
    let invitation : Invitation = record {
      id = id;
      created_at = created_at;
      organization_id = organization_id;
      email = normalized_email;
      role = role;
      token_hash = p.token_fingerprint raw_token;
      status = InvitationStatus.pending;
      invited_by = invited_by.id;
      expires_at = instant + 7 * 86400;
    }
    flush (λ d. invitation_fits d invitation) (insert_invitation invitation)
    record_audit organization_id (some invited_by.id) "member.invited" "invitation" (some id)
        (field "email" (str normalized_email) (field "role" (str (role_text role)) end))
    publish (Job.send_invitation_task id raw_token)
    pure invitation

  -- the membership that the user has already, or a new one with the invited role
  unfoldable pub join :
      Invitation → User → Option OrganizationMembership → Action OrganizationMembership
  join invitation user (some m) = pure m
  join invitation user none = do
    created_at ← now
    id ← new_uuid
    let membership : OrganizationMembership = record {
      id = id;
      created_at = created_at;
      organization_id = invitation.organization_id;
      user_id = user.id;
      role = invitation.role;
    }
    flush (λ d. membership_fits d membership) (insert_membership membership)
    pure membership

  -- `if invitation.expires_at <= now`: the status is written, and then the error is raised
  unfoldable pub refuse_expired : Invitation → Action ⊤
  refuse_expired i = do
    instant ← now
    if leb i.expires_at instant
        then (do
          write (set_invitation_status i.id InvitationStatus.expired)
          raise (conflict_error "INVITATION_EXPIRED" "Invitation has expired"))
        else pure tt

  unfoldable pub accept_invitation : User → String → Action OrganizationMembership
  unfolding find_token refuse_expired find_membership join
  accept_invitation user raw_token = do
    found ← gets (find_token (p.token_fingerprint raw_token))
    invitation ← or_raise found (not_found_error "INVITATION_NOT_FOUND" "Invitation was not found")
    raise_if (not (is_pending invitation.status))
        (conflict_error "INVITATION_NOT_ACTIVE" "Invitation is no longer active")
    refuse_expired invitation
    raise_if (not (str_eq invitation.email (p.lower user.email)))
        (forbidden_error "INVITATION_EMAIL_MISMATCH" "Invitation belongs to a different account")
    existing ← gets (find_membership invitation.organization_id user.id)
    membership ← join invitation user existing
    write (set_invitation_status invitation.id InvitationStatus.accepted)
    record_audit invitation.organization_id (some user.id) "member.joined" "organization_membership"
        (some membership.id) (field "role" (str (role_text membership.role)) end)
    pure membership

  unfoldable pub update_membership_role : ℕ → ℕ → User → Role → Action OrganizationMembership
  unfolding find_member
  update_membership_role organization_id membership_id actor role = do
    found ← gets (find_member organization_id membership_id)
    membership ← or_raise found (not_found_error "MEMBERSHIP_NOT_FOUND" "Membership was not found")
    raise_if (is_owner membership.role) (
        forbidden_error "FORBIDDEN"
          "The organization owner role cannot be changed through this endpoint")
    write (set_role membership.id role)
    record_audit organization_id (some actor.id) "member.role_changed" "organization_membership"
        (some membership.id)
        (field "from" (str (role_text membership.role)) (field "to" (str (role_text role)) end))
    pure (record membership { role = role })

  unfoldable pub remove_membership : ℕ → ℕ → User → Action ⊤
  unfolding find_member
  remove_membership organization_id membership_id actor = do
    found ← gets (find_member organization_id membership_id)
    membership ← or_raise found (not_found_error "MEMBERSHIP_NOT_FOUND" "Membership was not found")
    raise_if (is_owner membership.role)
        (forbidden_error "FORBIDDEN" "The organization owner cannot be removed")
    record_audit organization_id (some actor.id) "member.removed" "organization_membership"
        (some membership.id)
        (field "user_id" (uuid membership.user_id)
          (field "role" (str (role_text membership.role)) end))
    write (delete_membership membership.id)
