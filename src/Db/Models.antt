-- ===== src/Db/Models.antt =====
-- app/db/models.py: a record for each table. The column `updated_at` is left out: the program
-- only shows it. A column with a CHECK on a list of words is an enumeration.
use tenantflow_api.Prelude.{ℕ, String, Bool, true, false, Option, List}
use tenantflow_api.Core.Permissions.{Role}
use tenantflow_api.Db.Json.{Json, Fields}

pub record User : Type 0 where
  pub id : ℕ
  pub created_at : ℕ
  pub email : String
  pub password_hash : String
  pub full_name : String
  pub is_active : Bool

pub record Organization : Type 0 where
  pub id : ℕ
  pub created_at : ℕ
  pub name : String
  pub slug : String
  pub created_by : ℕ

pub record OrganizationMembership : Type 0 where
  pub id : ℕ
  pub created_at : ℕ
  pub organization_id : ℕ
  pub user_id : ℕ
  pub role : Role

pub data InvitationStatus : Type 0 where
  pending accepted revoked expired : InvitationStatus

abbrev pub is_pending : InvitationStatus → Bool
is_pending InvitationStatus.pending = true
is_pending _ = false

pub record Invitation : Type 0 where
  pub id : ℕ
  pub created_at : ℕ
  pub organization_id : ℕ
  pub email : String
  pub role : Role
  pub token_hash : String
  pub status : InvitationStatus
  pub invited_by : ℕ
  pub expires_at : ℕ

pub data ProjectStatus : Type 0 where
  active archived : ProjectStatus

pub record Project : Type 0 where
  pub id : ℕ
  pub created_at : ℕ
  pub organization_id : ℕ
  pub name : String
  pub description : Option String
  pub status : ProjectStatus
  pub created_by : ℕ

pub data TaskStatus : Type 0 where
  todo in_progress done cancelled : TaskStatus

pub data TaskPriority : Type 0 where
  low medium high urgent : TaskPriority

pub record Task : Type 0 where
  pub id : ℕ
  pub created_at : ℕ
  pub organization_id : ℕ
  pub project_id : ℕ
  pub title : String
  pub description : Option String
  pub status : TaskStatus
  pub priority : TaskPriority
  pub assignee_id : Option ℕ
  pub created_by : ℕ
  pub due_at : Option ℕ

pub record Attachment : Type 0 where
  pub id : ℕ
  pub created_at : ℕ
  pub organization_id : ℕ
  pub project_id : Option ℕ
  pub task_id : Option ℕ
  pub object_key : String
  pub original_filename : String
  pub content_type : String
  pub size_bytes : ℕ
  pub created_by : ℕ

pub record RefreshToken : Type 0 where
  pub id : ℕ
  pub user_id : ℕ
  pub token_hash : String
  pub family_id : ℕ
  pub expires_at : ℕ
  pub revoked_at : Option ℕ
  pub replaced_by_hash : Option String
  pub created_at : ℕ

pub data IdempotencyStatus : Type 0 where
  processing completed failed : IdempotencyStatus

-- The scope is the text `organization:create:{user}` and the like: its words, and its ids.
pub record Scope : Type 0 where
  pub action : String
  pub organization : Option ℕ
  pub user : ℕ

pub record IdempotencyRecord : Type 0 where
  pub id : ℕ
  pub organization_id : Option ℕ
  pub user_id : ℕ
  pub scope : Scope
  pub key : String
  pub request_hash : String
  pub status : IdempotencyStatus
  pub response_status : Option ℕ
  pub response_body : Option Fields
  pub created_at : ℕ
  pub expires_at : ℕ

pub record WebhookEndpoint : Type 0 where
  pub id : ℕ
  pub created_at : ℕ
  pub organization_id : ℕ
  pub url : String
  pub signing_secret_hash : String
  pub signing_secret_encrypted : String
  pub events : List String
  pub is_active : Bool
  pub created_by : ℕ

pub data DeliveryState : Type 0 where
  pending delivered retrying dead : DeliveryState

pub record WebhookDelivery : Type 0 where
  pub id : ℕ
  pub created_at : ℕ
  pub event_id : ℕ
  pub endpoint_id : ℕ
  pub event_type : String
  pub payload : Json
  pub state : DeliveryState
  pub attempt_count : ℕ
  pub response_status : Option ℕ
  pub last_error : Option String
  pub next_retry_at : Option ℕ

pub data Plan : Type 0 where
  free pro business : Plan

pub data SubscriptionStatus : Type 0 where
  inactive trialing active past_due cancelled : SubscriptionStatus

pub record Subscription : Type 0 where
  pub id : ℕ
  pub created_at : ℕ
  pub organization_id : ℕ
  pub plan : Plan
  pub status : SubscriptionStatus
  pub stripe_customer_id : Option String
  pub stripe_subscription_id : Option String
  pub current_period_end : Option ℕ

pub record StripeEvent : Type 0 where
  pub id : ℕ
  pub stripe_event_id : String
  pub event_type : String
  pub processed_at : ℕ

pub record AuditLog : Type 0 where
  pub id : ℕ
  pub organization_id : ℕ
  pub actor_id : Option ℕ
  pub action : String
  pub entity_type : String
  pub entity_id : Option ℕ
  pub metadata_json : Fields
  pub created_at : ℕ

pub record Database : Type 0 where
  pub users : List User
  pub organizations : List Organization
  pub memberships : List OrganizationMembership
  pub invitations : List Invitation
  pub projects : List Project
  pub tasks : List Task
  pub attachments : List Attachment
  pub refresh_tokens : List RefreshToken
  pub idempotency_records : List IdempotencyRecord
  pub webhook_endpoints : List WebhookEndpoint
  pub webhook_deliveries : List WebhookDelivery
  pub subscriptions : List Subscription
  pub stripe_events : List StripeEvent
  pub audit_logs : List AuditLog
