-- ===== src/Migrations/Initial.antt =====
-- alembic/versions/20260817_0001_initial.py: `upgrade` and `downgrade`.
use tenantflow_api.Prelude.{String, List, [], ◌∷◌, map}
use tenantflow_api.Migrations.Catalog.{Operation, Catalog}
use tenantflow_api.Migrations.Tenants.{
  users, ix_users_email, organizations, ix_organizations_slug, organization_memberships,
  ix_membership_user_org, invitations, uq_invitation_pending_org_email, projects,
  ix_project_org_created, tasks, ix_task_org_project_created, ix_task_org_assignee_status,
  attachments, ix_attachment_org_object,
}
use tenantflow_api.Migrations.Services.{
  refresh_tokens, ix_refresh_user_expires, idempotency_records, ix_idempotency_expires,
  webhook_endpoints, ix_webhook_endpoint_org_active, webhook_deliveries,
  ix_delivery_state_next_retry, subscriptions, stripe_events, audit_logs, ix_audit_org_created,
}

unfoldable pub upgrade : List Operation
upgrade =
    Operation.create_table users
    ∷ Operation.create_index ix_users_email
    ∷ Operation.create_table organizations
    ∷ Operation.create_index ix_organizations_slug
    ∷ Operation.create_table organization_memberships
    ∷ Operation.create_index ix_membership_user_org
    ∷ Operation.create_table invitations
    ∷ Operation.create_index uq_invitation_pending_org_email
    ∷ Operation.create_table projects
    ∷ Operation.create_index ix_project_org_created
    ∷ Operation.create_table tasks
    ∷ Operation.create_index ix_task_org_project_created
    ∷ Operation.create_index ix_task_org_assignee_status
    ∷ Operation.create_table attachments
    ∷ Operation.create_index ix_attachment_org_object
    ∷ Operation.create_table refresh_tokens
    ∷ Operation.create_index ix_refresh_user_expires
    ∷ Operation.create_table idempotency_records
    ∷ Operation.create_index ix_idempotency_expires
    ∷ Operation.create_table webhook_endpoints
    ∷ Operation.create_index ix_webhook_endpoint_org_active
    ∷ Operation.create_table webhook_deliveries
    ∷ Operation.create_index ix_delivery_state_next_retry
    ∷ Operation.create_table subscriptions
    ∷ Operation.create_table stripe_events
    ∷ Operation.create_table audit_logs
    ∷ Operation.create_index ix_audit_org_created
    ∷ []

-- the tables that `downgrade` drops
abbrev pub dropped : List String
dropped =
    "audit_logs" ∷ "stripe_events" ∷ "subscriptions" ∷ "webhook_deliveries" ∷ "webhook_endpoints"
    ∷ "idempotency_records" ∷ "refresh_tokens" ∷ "attachments" ∷ "tasks" ∷ "projects"
    ∷ "invitations" ∷ "organization_memberships" ∷ "organizations" ∷ "users" ∷ []

unfoldable pub downgrade : List Operation
downgrade = map (λ name. Operation.drop_table name) dropped

-- what `upgrade` has made, the last first
abbrev pub built : Catalog
built = record {
  tables =
      audit_logs ∷ stripe_events ∷ subscriptions ∷ webhook_deliveries ∷ webhook_endpoints
      ∷ idempotency_records ∷ refresh_tokens ∷ attachments ∷ tasks ∷ projects ∷ invitations
      ∷ organization_memberships ∷ organizations ∷ users ∷ [];
  indexes =
      ix_audit_org_created ∷ ix_delivery_state_next_retry ∷ ix_webhook_endpoint_org_active
      ∷ ix_idempotency_expires ∷ ix_refresh_user_expires ∷ ix_attachment_org_object
      ∷ ix_task_org_assignee_status ∷ ix_task_org_project_created ∷ ix_project_org_created
      ∷ uq_invitation_pending_org_email ∷ ix_membership_user_org ∷ ix_organizations_slug
      ∷ ix_users_email ∷ [];
}
