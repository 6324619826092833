-- ===== src/Tenancy.antt =====
-- Tenant isolation, across app/modules: what an operation on one organization leaves alone.
pub mod Projects
pub mod Tasks
pub mod Members
pub mod Lists
pub mod Organizations
pub mod Webhooks
pub mod Uploads
pub mod Records
pub mod Endpoints
use tenantflow_api.Prelude.{
  ℕ, ◌≡◌, refl, String, Option, none, some, suc, All, ◌∙◌, Bool, true, false, not, ◌&&◌, ◌||◌, List,
  [], ◌∷◌, ◌++◌, arith, Unique, outside, outside-append, outside-update, outside-delete,
  Unique-append, Unique-insert, Unique-update, Unique-delete,
}
use tenantflow_api.Db.Models.{
  Database, OrganizationMembership, Invitation, Project, Task, Attachment, WebhookEndpoint,
  Subscription, AuditLog, WebhookDelivery, IdempotencyRecord,
}
use tenantflow_api.Db.Json.{Fields}
use tenantflow_api.Db.Session.{Platform, World, Action, request}
use tenantflow_api.Db.Session.Triple.{Keeps, request-Keeps}
use tenantflow_api.Audit.{insert_audit_log, record_audit}
use tenantflow_api.Audit.Keeps.{record_audit-Keeps}
use tenantflow_api.Db.Constraints.{webhook_delivery_clash, webhook_delivery_fits}
use tenantflow_api.Webhooks.Events.{insert_delivery, active_endpoints, emit_event}
use tenantflow_api.Webhooks.Owners.{owner_id, active-owned}
use tenantflow_api.Webhooks.Events.Keeps.{emit_owned-Keeps}

-- the organization of a row that need not have one: what is nobody's is not the organization's
abbrev pub tenant_of : ℕ → Option ℕ → ℕ
tenant_of o none = suc o
tenant_of o (some k) = k

-- The rows of the other organizations, and of none, are the same in `b` as in `a`. A delivery belongs to
-- the organization that its endpoint has in `a`; one of an endpoint that `a` has not is the
-- organization's own, since an event goes to endpoints that are there or that the request made.
pub record SameOutside (o : ℕ) (a b : Database) : Type 0 where
  pub users : b.users ≡ a.users
  pub organizations : b.organizations ≡ a.organizations
  pub memberships :
      outside (λ (x : OrganizationMembership). x.organization_id) o b.memberships
      ≡ outside (λ (x : OrganizationMembership). x.organization_id) o a.memberships
  pub invitations :
      outside (λ (x : Invitation). x.organization_id) o b.invitations
      ≡ outside (λ (x : Invitation). x.organization_id) o a.invitations
  pub projects :
      outside (λ (x : Project). x.organization_id) o b.projects
      ≡ outside (λ (x : Project). x.organization_id) o a.projects
  pub tasks :
      outside (λ (x : Task). x.organization_id) o b.tasks
      ≡ outside (λ (x : Task). x.organization_id) o a.tasks
  pub attachments :
      outside (λ (x : Attachment). x.organization_id) o b.attachments
      ≡ outside (λ (x : Attachment). x.organization_id) o a.attachments
  pub webhook_endpoints :
      outside (λ (x : WebhookEndpoint). x.organization_id) o b.webhook_endpoints
      ≡ outside (λ (x : WebhookEndpoint). x.organization_id) o a.webhook_endpoints
  pub subscriptions :
      outside (λ (x : Subscription). x.organization_id) o b.subscriptions
      ≡ outside (λ (x : Subscription). x.organization_id) o a.subscriptions
  pub audit_logs :
      outside (λ (x : AuditLog). x.organization_id) o b.audit_logs
      ≡ outside (λ (x : AuditLog). x.organization_id) o a.audit_logs
  pub idempotency_records :
      outside (λ (x : IdempotencyRecord). tenant_of o x.organization_id) o b.idempotency_records
      ≡ outside (λ (x : IdempotencyRecord). tenant_of o x.organization_id) o a.idempotency_records
  pub webhook_deliveries :
      outside
        (λ (x : WebhookDelivery). owner_id o a.webhook_endpoints x.endpoint_id)
        o
        b.webhook_deliveries
      ≡ outside
          (λ (x : WebhookDelivery). owner_id o a.webhook_endpoints x.endpoint_id)
          o
          a.webhook_deliveries
  pub refresh_tokens : b.refresh_tokens ≡ a.refresh_tokens
  pub stripe_events : b.stripe_events ≡ a.stripe_events

-- The primary keys of the tables that are updated by id.
pub record IsKeyed (d : Database) : Type 0 where
  pub memberships : Unique (λ (x : OrganizationMembership). x.id) d.memberships
  pub invitations : Unique (λ (x : Invitation). x.id) d.invitations
  pub projects : Unique (λ (x : Project). x.id) d.projects
  pub tasks : Unique (λ (x : Task). x.id) d.tasks
  pub webhook_endpoints : Unique (λ (x : WebhookEndpoint). x.id) d.webhook_endpoints
  pub subscriptions : Unique (λ (x : Subscription). x.id) d.subscriptions
  pub idempotency_records : Unique (λ (x : IdempotencyRecord). x.id) d.idempotency_records
  pub webhook_deliveries : Unique (λ (x : WebhookDelivery). x.id) d.webhook_deliveries

-- `d` differs from `a` at most in the rows of the organization `o`.
abbrev pub Within : ℕ → Database → Database → Type 0
Within o a d = SameOutside o a d × IsKeyed d

pub Within-refl : (o : ℕ) (a : Database) → IsKeyed a → Within o a a
Within-refl o a k = (ground arith, k)

pub Within-insert_audit_log :
    (o : ℕ) (a d : Database) (r : AuditLog)
    → r.organization_id ≡ o
    → Within o a d
    → Within o a (insert_audit_log r d)
unfolding insert_audit_log
Within-insert_audit_log o a d r e h = (
  ground (arith, outside-append (λ (x : AuditLog). x.organization_id) o d.audit_logs r e),
  assumption h.1,
)

-- the endpoint's id is not another organization's in `a`
abbrev pub Own : ℕ → Database → ℕ → Type 0
Own o a k = owner_id o a.webhook_endpoints k ≡ o

pub Within-insert_delivery :
    (o : ℕ) (a d : Database) (r : WebhookDelivery)
    → Own o a r.endpoint_id
    → webhook_delivery_fits d r ≡ true
    → Within o a d
    → Within o a (insert_delivery r d)
unfolding webhook_delivery_fits
Within-insert_delivery o a d r own fits h = (
  ground (
    arith,
    outside-append (λ (x : WebhookDelivery). owner_id o a.webhook_endpoints x.endpoint_id) o
        d.webhook_deliveries r own,
  ),
  assumption (
    h.1,
    Unique-insert (λ (x : WebhookDelivery). x.id) (webhook_delivery_clash r) d.webhook_deliveries r
        (λ x same. ground arith) h.1.webhook_deliveries (ground arith),
  ),
)

pub Within-owns :
    (o : ℕ) (a d : Database) → Within o a d → All (λ e. Own o a e.id) (active_endpoints o d)
Within-owns o a d h =
    active-owned o a.webhook_endpoints d h.0.webhook_endpoints h.1.webhook_endpoints

module _ ⦃p : Platform⦄ (o : ℕ) (a : Database) where
  pub audit-Within :
      (actor_id : Option ℕ) (action entity_type : String) (entity_id : Option ℕ) (metadata : Fields)
      → Keeps (Within o a) (record_audit o actor_id action entity_type entity_id metadata)
  audit-Within actor_id action entity_type entity_id metadata =
      record_audit-Keeps (Within o a) o (Within-insert_audit_log o a) actor_id action entity_type
        entity_id metadata

  pub emit-Within :
      (event_type : String) (payload : Fields)
      → Keeps (Within o a) (emit_event o event_type payload)
  emit-Within event_type payload =
      emit_owned-Keeps (Within o a) (Own o a) (Within-insert_delivery o a) o event_type payload
        (Within-owns o a)

-- A request on the organization `o` leaves every row of the other organizations as it was.
pub isolated :
    {A : Type 0} (o : ℕ) (m : Action A)
    → ((a : Database) → Keeps (Within o a) m)
    → (w : World) → IsKeyed w.db
    → SameOutside o w.db (request m w).1.db × IsKeyed (request m w).1.db
isolated o m keeps w k = request-Keeps (Within o w.db) m (keeps w.db) w (Within-refl o w.db k)
