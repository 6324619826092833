-- ===== src/Examples/Organizations.antt =====
-- The theorems on organizations at work.
use tenantflow_api.Prelude.{◌≡◌, refl, arith, String, []}
use tenantflow_api.Core.Errors.{ok, err, conflict_error}
use tenantflow_api.Core.Permissions.{member, owner}
use tenantflow_api.Core.Dependencies.{OrganizationContext, get_current_user, require_permission}
use tenantflow_api.Db.Models.{pending}
use tenantflow_api.Db.Session.{World, request}
use tenantflow_api.Organizations.Schemas.{
  InviteMemberRequest, InvitationResponse, OrganizationCreate,
}
use tenantflow_api.Organizations.Replay.{create_repeated}
use tenantflow_api.Organizations.Reinvitation.{invitation_repeated}
use tenantflow_api.Organizations.Owners.{KeepsOwners, owners_stay}
use tenantflow_api.Organizations.Router.{
  create, create_invitation, change_member_role, delete_member,
}
use tenantflow_api.Examples.World.{demo, alice, owner_of_acme, db, start, at}

abbrev invite : String → InviteMemberRequest
invite email = record { email = email; role = "member" }

abbrev answer : InvitationResponse
answer = record { id = 106; email = "dave@example.com"; role = member; status = pending }

abbrev context : OrganizationContext
context = record { user = alice; membership = owner_of_acme }

abbrev after : World
after =
    (request (create_invitation ⦃p = demo⦄ 10 "alice" (invite "dave@example.com") "key-0001")
      start).1

-- the second request comes to what is left of the first one's key
abbrev second : World
second = at 50 (record db { idempotency_records = after.db.idempotency_records })

invitation_repeated_example :
    let (r, w) =
      request
        (create_invitation ⦃p = demo⦄ 10 "alice" (invite "dave@example.com") "key-0001")
        second in
    (r ≡ ok answer) × (w.db ≡ second.db) × (w.jobs ≡ [])
unfolding require_permission tenantflow_api.Db.Session.◌>>=◌ tenantflow_api.Prelude.scalar
    tenantflow_api.Core.Permissions.has_permission request create_invitation
    tenantflow_api.Organizations.Schemas.assignable_role tenantflow_api.Prelude.exists
    tenantflow_api.Db.Constraints.invitation_fits tenantflow_api.Audit.record_audit
invitation_repeated_example =
    invitation_repeated ⦃p = demo⦄ 10 (invite "dave@example.com") (invite "dave@example.com")
      "key-0001" "alice" "alice" start (at 1 start.db) after second (record second { ticks = 51 })
      context context answer member refl refl refl refl refl refl

abbrev initech : OrganizationCreate
initech = record { name = "Initech"; slug = "initech" }

abbrev founded : World
founded = (request (create ⦃p = demo⦄ "alice" initech "key-0002") start).1

-- another organization under the same key
abbrev again : World
again = at 50 (record db { idempotency_records = founded.db.idempotency_records })

create_repeated_example :
    let (r, w) =
      request
        (create ⦃p = demo⦄ "alice" (record { name = "Hooli"; slug = "hooli" }) "key-0002")
        again in
    (r
      ≡ err (
          conflict_error "IDEMPOTENCY_KEY_REUSED"
            "Idempotency-Key was already used with a different request payload"))
    × (w.db ≡ again.db)
unfolding tenantflow_api.Db.Session.◌>>=◌ tenantflow_api.Prelude.scalar request create
    tenantflow_api.Prelude.exists tenantflow_api.Audit.record_audit get_current_user
    tenantflow_api.Core.Dependencies.get_user tenantflow_api.Core.Security.decode_access_token
    tenantflow_api.Organizations.Service.find_slug tenantflow_api.Db.Constraints.organization_fits
    tenantflow_api.Db.Constraints.membership_fits
create_repeated_example =
    create_repeated ⦃p = demo⦄ alice initech "key-0002" (record { name = "Hooli"; slug = "hooli" })
      "alice" "alice" start (at 1 start.db) founded again (record again { ticks = 51 })
      (record { id = 104; name = "Initech"; slug = "initech"; role = owner }) refl refl refl refl

owners_stay_example :
    KeepsOwners start.db.memberships
      (request (change_member_role ⦃p = demo⦄ 10 21 "alice" "admin") start).1.db.memberships
    × KeepsOwners start.db.memberships
        (request (delete_member ⦃p = demo⦄ 10 21 "alice") start).1.db.memberships
owners_stay_example = owners_stay ⦃p = demo⦄ 10 21 "alice" "admin" start (ground arith)
