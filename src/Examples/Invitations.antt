-- ===== src/Examples/Invitations.antt =====
-- Invitations, the clean-up and a new task at work.
use tenantflow_api.Prelude.{
  ℕ, ◌+◌, ◌≡◌, refl, String, Bool, true, false, not, ◌||◌, none, some, List, [], ◌∷◌, arith, All,
  select, ltb, map,
}
use tenantflow_api.Core.Errors.{ok, err}
use tenantflow_api.Core.Permissions.{member}
use tenantflow_api.Db.Models.{
  Invitation, InvitationStatus, OrganizationMembership, Project, ProjectStatus, Task, TaskStatus,
  TaskPriority,
}
use tenantflow_api.Db.Session.{World, request}
use tenantflow_api.Organizations.Service.{accept_invitation}
use tenantflow_api.Organizations.Acceptance.{
  invitation_expired, invitation_not_active, expired_unchanged, accepted_once,
}
use tenantflow_api.Workers.Maintenance.{cleanup_expired_state}
use tenantflow_api.Workers.Expiry.{expires, cleanup_lem}
use tenantflow_api.Tasks.Service.{TaskCreate, create_task}
use tenantflow_api.Tasks.Placement.{IsPlaced, created-IsPlaced}
use tenantflow_api.Examples.World.{demo, db, alice, carol, at}

abbrev invitation : ℕ → Invitation
invitation expires_at = record {
  id = 90;
  created_at = 0;
  organization_id = 10;
  email = "carol@example.com";
  role = member;
  token_hash = "sha:invite";
  status = InvitationStatus.pending;
  invited_by = 1;
  expires_at = expires_at;
}

abbrev invited : ℕ → World
invited expires_at = at 0 (record db { invitations = invitation expires_at ∷ [] })

expired_unchanged_example :
    request (accept_invitation ⦃p = demo⦄ carol "invite") (invited 900)
    ≡ (err invitation_expired, record (invited 900) { ticks = 1 })
unfolding tenantflow_api.Organizations.Service.find_token tenantflow_api.Prelude.scalar
expired_unchanged_example =
    expired_unchanged ⦃p = demo⦄ carol "invite" (invitation 900) (invited 900) refl refl refl

abbrev after : World
after = (request (accept_invitation ⦃p = demo⦄ carol "invite") (invited 5000)).1

abbrev joined : OrganizationMembership
joined = record { id = 102; created_at = 1001; organization_id = 10; user_id = 3; role = member }

accepted_once_example :
    accept_invitation ⦃p = demo⦄ carol "invite" after ≡ (err invitation_not_active, after)
unfolding accept_invitation request tenantflow_api.Db.Session.◌>>=◌ tenantflow_api.Prelude.scalar
    tenantflow_api.Prelude.exists tenantflow_api.Db.Constraints.membership_fits
    tenantflow_api.Audit.record_audit
accepted_once_example =
    accepted_once ⦃p = demo⦄ carol "invite" joined (invited 5000) after after refl refl

cleanup_lem_example :
    let (r, v) = request (cleanup_expired_state ⦃p = demo⦄) (invited 900) in
    (r ≡ ok tt)
    × (v.db.idempotency_records ≡ select (λ x. not (ltb x.expires_at 1000)) db.idempotency_records)
    × (v.db.refresh_tokens ≡ select (λ x. not (ltb x.expires_at 1000)) db.refresh_tokens)
    × (v.db.invitations ≡ map (expires 1000) (invited 900).db.invitations)
cleanup_lem_example = cleanup_lem ⦃p = demo⦄ (invited 900)

abbrev project : Project
project = record {
  id = 30;
  created_at = 0;
  organization_id = 10;
  name = "Apollo";
  description = none;
  status = ProjectStatus.active;
  created_by = 1;
}

abbrev payload : TaskCreate
payload = record {
  project_id = 30;
  title = "Land";
  description = none;
  priority = TaskPriority.high;
  assignee_id = some 2;
  due_at = none;
}

abbrev planned : World
planned = at 0 (record db { projects = project ∷ [] })

abbrev landing : Task
landing = record {
  id = 101;
  created_at = 1000;
  organization_id = 10;
  project_id = 30;
  title = "Land";
  description = none;
  status = TaskStatus.todo;
  priority = TaskPriority.high;
  assignee_id = some 2;
  created_by = 1;
  due_at = none;
}

created-IsPlaced_example :
    IsPlaced 10 payload landing (request (create_task ⦃p = demo⦄ 10 alice payload) planned).1.db
unfolding create_task request tenantflow_api.Db.Session.◌>>=◌ tenantflow_api.Prelude.scalar
    tenantflow_api.Prelude.exists tenantflow_api.Db.Constraints.task_fits
    tenantflow_api.Audit.record_audit tenantflow_api.Webhooks.Events.emit_event select
created-IsPlaced_example =
    created-IsPlaced ⦃p = demo⦄ 10 alice payload landing planned
      (request (create_task ⦃p = demo⦄ 10 alice payload) planned).1 refl
