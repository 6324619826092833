-- ===== src/Db/Constraints.antt =====
-- app/db/models.py: what PostgreSQL checks when a row is inserted: the primary key, UNIQUE,
-- FOREIGN KEY and CHECK. Each test takes the database before the write and the new row.
-- Lengths of VARCHAR columns are not modelled.
use tenantflow_api.Prelude.{
  ℕ, ◌==◌, String, Bool, true, not, ◌&&◌, ◌||◌, Option, none, some, str_eq, holds_text, present,
  ltb, exists,
}
use tenantflow_api.Core.Permissions.{is_owner}
use tenantflow_api.Db.Models.{
  Database, User, Organization, OrganizationMembership, Invitation, is_pending, Project, Task,
  Attachment, RefreshToken, WebhookEndpoint, WebhookDelivery, Subscription, AuditLog,
}

unfoldable pub user_exists : Database → ℕ → Bool
user_exists d k = exists (λ (u : User). u.id == k) d.users

unfoldable pub organization_exists : Database → ℕ → Bool
organization_exists d k = exists (λ (o : Organization). o.id == k) d.organizations

-- the composite keys (organization_id, id) of projects and tasks
unfoldable pub project_exists : Database → ℕ → ℕ → Bool
project_exists d o k = exists (λ (x : Project). x.organization_id == o && x.id == k) d.projects

unfoldable pub task_exists : Database → ℕ → ℕ → Bool
task_exists d o k = exists (λ (x : Task). x.organization_id == o && x.id == k) d.tasks

-- a nullable foreign key holds when it is NULL
abbrev pub null_or : (ℕ → Bool) → Option ℕ → Bool
null_or test none = true
null_or test (some k) = test k

abbrev pub user_clash : User → User → Bool
user_clash r x = x.id == r.id || str_eq x.email r.email

unfoldable pub user_fits : Database → User → Bool
user_fits d r = not (exists (user_clash r) d.users)

abbrev pub organization_clash : Organization → Organization → Bool
organization_clash r x = x.id == r.id || str_eq x.slug r.slug

unfoldable pub organization_fits : Database → Organization → Bool
unfolding user_exists
organization_fits d r =
    not (exists (organization_clash r) d.organizations) && user_exists d r.created_by

abbrev pub membership_clash : OrganizationMembership → OrganizationMembership → Bool
membership_clash r x =
    x.id == r.id || (x.organization_id == r.organization_id && x.user_id == r.user_id)

unfoldable pub membership_fits : Database → OrganizationMembership → Bool
unfolding user_exists organization_exists
membership_fits d r =
    not (exists (membership_clash r) d.memberships)
    && organization_exists d r.organization_id
    && user_exists d r.user_id

abbrev pub invitation_clash : Invitation → Invitation → Bool
invitation_clash r x =
    x.id == r.id
    || str_eq x.token_hash r.token_hash
    || (x.organization_id == r.organization_id
        && str_eq x.email r.email
        && is_pending x.status
        && is_pending r.status)

-- `uq_invitation_pending_org_email` is a partial index: over the pending rows only
unfoldable pub invitation_fits : Database → Invitation → Bool
unfolding user_exists organization_exists
invitation_fits d r =
    not (exists (invitation_clash r) d.invitations)
    && not (is_owner r.role)
    && organization_exists d r.organization_id
    && user_exists d r.invited_by

abbrev pub project_clash : Project → Project → Bool
project_clash r x = x.id == r.id || (x.organization_id == r.organization_id && str_eq x.name r.name)

unfoldable pub project_fits : Database → Project → Bool
unfolding user_exists organization_exists
project_fits d r =
    not (exists (project_clash r) d.projects)
    && organization_exists d r.organization_id
    && user_exists d r.created_by

abbrev pub project_update_clash : Project → Project → Bool
project_update_clash r x =
    not (x.id == r.id) && x.organization_id == r.organization_id && str_eq x.name r.name

-- an UPDATE of a project: no other project of the organization has its name
unfoldable pub project_update_fits : Database → Project → Bool
project_update_fits d r = not (exists (project_update_clash r) d.projects)

abbrev pub task_clash : Task → Task → Bool
task_clash r x = x.id == r.id

unfoldable pub task_fits : Database → Task → Bool
unfolding user_exists organization_exists project_exists
task_fits d r =
    not (exists (task_clash r) d.tasks)
    && organization_exists d r.organization_id
    && project_exists d r.organization_id r.project_id
    && null_or (user_exists d) r.assignee_id
    && user_exists d r.created_by

unfoldable pub task_update_fits : Database → Task → Bool
unfolding user_exists
task_update_fits d r = null_or (user_exists d) r.assignee_id

abbrev pub attachment_clash : Attachment → Attachment → Bool
attachment_clash r x = x.id == r.id || str_eq x.object_key r.object_key

-- `attachment_exactly_one_parent` and `attachment_positive_size`
unfoldable pub attachment_fits : Database → Attachment → Bool
unfolding user_exists organization_exists project_exists task_exists
attachment_fits d r =
    not (exists (attachment_clash r) d.attachments)
    && ((present r.project_id && not (present r.task_id))
        || (not (present r.project_id) && present r.task_id))
    && ltb 0 r.size_bytes
    && organization_exists d r.organization_id
    && null_or (project_exists d r.organization_id) r.project_id
    && null_or (task_exists d r.organization_id) r.task_id
    && user_exists d r.created_by

abbrev pub refresh_token_clash : RefreshToken → RefreshToken → Bool
refresh_token_clash r x = x.id == r.id || str_eq x.token_hash r.token_hash

unfoldable pub refresh_token_fits : Database → RefreshToken → Bool
unfolding user_exists
refresh_token_fits d r =
    not (exists (refresh_token_clash r) d.refresh_tokens) && user_exists d r.user_id

abbrev pub webhook_endpoint_clash : WebhookEndpoint → WebhookEndpoint → Bool
webhook_endpoint_clash r x = x.id == r.id

unfoldable pub webhook_endpoint_fits : Database → WebhookEndpoint → Bool
unfolding user_exists organization_exists
webhook_endpoint_fits d r =
    not (exists (webhook_endpoint_clash r) d.webhook_endpoints)
    && organization_exists d r.organization_id
    && user_exists d r.created_by

abbrev pub webhook_delivery_clash : WebhookDelivery → WebhookDelivery → Bool
webhook_delivery_clash r x =
    x.id == r.id || (x.event_id == r.event_id && x.endpoint_id == r.endpoint_id)

unfoldable pub webhook_delivery_fits : Database → WebhookDelivery → Bool
webhook_delivery_fits d r =
    not (exists (webhook_delivery_clash r) d.webhook_deliveries)
    && exists (λ (x : WebhookEndpoint). x.id == r.endpoint_id) d.webhook_endpoints

-- two nullable unique columns hold the same value: NULLs are distinct
abbrev pub same_text : Option String → Option String → Bool
same_text none b = not true
same_text (some s) b = holds_text b s

abbrev pub subscription_clash : Subscription → Subscription → Bool
subscription_clash r x =
    x.id == r.id
    || x.organization_id == r.organization_id
    || same_text x.stripe_customer_id r.stripe_customer_id
    || same_text x.stripe_subscription_id r.stripe_subscription_id

unfoldable pub subscription_fits : Database → Subscription → Bool
unfolding organization_exists
subscription_fits d r =
    not (exists (subscription_clash r) d.subscriptions) && organization_exists d r.organization_id

abbrev pub subscription_update_clash : Subscription → Subscription → Bool
subscription_update_clash r x =
    not (x.id == r.id)
    && (same_text x.stripe_customer_id r.stripe_customer_id
        || same_text x.stripe_subscription_id r.stripe_subscription_id)

-- an UPDATE of a subscription: no other row has one of its Stripe ids
unfoldable pub subscription_update_fits : Database → Subscription → Bool
subscription_update_fits d r = not (exists (subscription_update_clash r) d.subscriptions)

abbrev pub audit_log_clash : AuditLog → AuditLog → Bool
audit_log_clash r x = x.id == r.id

unfoldable pub audit_log_fits : Database → AuditLog → Bool
unfolding user_exists organization_exists
audit_log_fits d r =
    not (exists (audit_log_clash r) d.audit_logs)
    && organization_exists d r.organization_id
    && null_or (user_exists d) r.actor_id
