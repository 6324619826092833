-- ===== src/Tenancy/Members.antt =====
-- Tenant isolation of app/modules/organizations/service.py: the statements that it sends.
use tenantflow_api.Prelude.{
  ℕ, ◌≡◌, refl, String, true, some, arith, All, scalar_passes, ◌==◌, ◌&&◌, str_eq, outside-append,
  outside-update, outside-delete, owned_row, Unique-insert, Unique-update, Unique-delete,
}
use tenantflow_api.Core.Permissions.{Role}
use tenantflow_api.Db.Models.{
  Database, OrganizationMembership, Invitation, InvitationStatus, is_pending,
}
use tenantflow_api.Db.Constraints.{
  membership_clash, membership_fits, invitation_clash, invitation_fits,
}
use tenantflow_api.Organizations.Service.{
  insert_membership, insert_invitation, set_invitation_status, set_role, delete_membership,
  find_pending, find_token, find_member,
}
use tenantflow_api.Tenancy.{Within, IsKeyed}

abbrev owner_of : OrganizationMembership → ℕ
owner_of m = m.organization_id

abbrev inviter_of : Invitation → ℕ
inviter_of i = i.organization_id

-- every row with the id is the organization's
abbrev pub MembershipOwned : ℕ → ℕ → Database → Type 0
MembershipOwned o k d =
    All (λ (m : OrganizationMembership). (m.id == k) ≡ true → m.organization_id ≡ o) d.memberships

abbrev pub InvitationOwned : ℕ → ℕ → Database → Type 0
InvitationOwned o k d =
    All (λ (i : Invitation). (i.id == k) ≡ true → i.organization_id ≡ o) d.invitations

pub member_owned :
    (o k : ℕ) (d : Database) (m : OrganizationMembership)
    → IsKeyed d
    → find_member o k d ≡ some m
    → MembershipOwned o m.id d
unfolding find_member
member_owned o k d m h e =
    let test = λ (x : OrganizationMembership). x.id == k && x.organization_id == o in
    owned_row owner_of o (λ x. x.id) test d.memberships m h.memberships e
      (ground (arith, scalar_passes test d.memberships m e))

pub pending_owned :
    (o : ℕ) (email : String) (d : Database) (i : Invitation)
    → IsKeyed d
    → find_pending o email d ≡ some i
    → InvitationOwned o i.id d
unfolding find_pending
pending_owned o email d i h e =
    let test =
      λ (x : Invitation). x.organization_id == o && str_eq x.email email && is_pending x.status in
    owned_row inviter_of o (λ x. x.id) test d.invitations i h.invitations e
      (ground (arith, scalar_passes test d.invitations i e))

pub token_owned :
    (fingerprint : String) (d : Database) (i : Invitation)
    → IsKeyed d
    → find_token fingerprint d ≡ some i
    → InvitationOwned i.organization_id i.id d
unfolding find_token
token_owned fingerprint d i h e =
    owned_row inviter_of i.organization_id (λ x. x.id) (λ x. str_eq x.token_hash fingerprint)
      d.invitations i h.invitations e refl

pub Within-set_status :
    (o k : ℕ) (a d : Database) (s : InvitationStatus)
    → InvitationOwned o k d
    → Within o a d
    → Within o a (set_invitation_status k s d)
Within-set_status o k a d s mine h = (
  ground (
    arith,
    outside-update inviter_of o (λ i. i.id == k) (λ i. record i { status = s }) (λ i. refl)
        d.invitations mine,
  ),
  assumption (
    h.1,
    Unique-update (λ (i : Invitation). i.id) (λ i. i.id == k) (λ i. record i { status = s })
        (λ i. refl) d.invitations h.1.invitations,
  ),
)

pub Within-set_role :
    (o k : ℕ) (a d : Database) (r : Role)
    → MembershipOwned o k d
    → Within o a d
    → Within o a (set_role k r d)
Within-set_role o k a d r mine h = (
  ground (
    arith,
    outside-update owner_of o (λ m. m.id == k) (λ m. record m { role = r }) (λ m. refl)
        d.memberships mine,
  ),
  assumption (
    h.1,
    Unique-update (λ (m : OrganizationMembership). m.id) (λ m. m.id == k)
        (λ m. record m { role = r }) (λ m. refl) d.memberships h.1.memberships,
  ),
)

pub Within-delete_membership :
    (o k : ℕ) (a d : Database)
    → MembershipOwned o k d
    → Within o a d
    → Within o a (delete_membership k d)
Within-delete_membership o k a d mine h = (
  ground (arith, outside-delete owner_of o (λ m. m.id == k) d.memberships mine),
  assumption (
    h.1,
    Unique-delete (λ (m : OrganizationMembership). m.id) (λ m. m.id == k) d.memberships
        h.1.memberships,
  ),
)

pub Within-insert_membership :
    (o : ℕ) (a d : Database) (r : OrganizationMembership)
    → r.organization_id ≡ o
    → membership_fits d r ≡ true
    → Within o a d
    → Within o a (insert_membership r d)
unfolding membership_fits
Within-insert_membership o a d r e fits h = (
  ground (arith, outside-append owner_of o d.memberships r e),
  assumption (
    h.1,
    Unique-insert (λ (x : OrganizationMembership). x.id) (membership_clash r) d.memberships r
        (λ x same. ground arith) h.1.memberships (ground arith),
  ),
)

pub Within-insert_invitation :
    (o : ℕ) (a d : Database) (r : Invitation)
    → r.organization_id ≡ o
    → invitation_fits d r ≡ true
    → Within o a d
    → Within o a (insert_invitation r d)
unfolding invitation_fits
Within-insert_invitation o a d r e fits h = (
  ground (arith, outside-append inviter_of o d.invitations r e),
  assumption (
    h.1,
    Unique-insert (λ (x : Invitation). x.id) (invitation_clash r) d.invitations r
        (λ x same. ground arith) h.1.invitations (ground arith),
  ),
)
