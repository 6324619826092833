-- ===== src/Migrations/Services.antt =====
-- alembic/versions/20260817_0001_initial.py: the tables of tokens, webhooks, billing and audit.
use tenantflow_api.Prelude.{false, none, [], ◌∷◌}
use tenantflow_api.Migrations.Catalog.{
  uuid, text, boolean, timestamp, integer, jsonb, string, no_action, cascade, set_null, Table,
  Index,
}
use tenantflow_api.Migrations.Columns.{
  identifier, required, optional, defaulted, references, unique, check,
}

abbrev pub refresh_tokens : Table
refresh_tokens = record {
  name = "refresh_tokens";
  columns =
      identifier
      ∷ required "user_id" uuid
      ∷ required "token_hash" (string 64)
      ∷ required "family_id" uuid
      ∷ required "expires_at" timestamp
      ∷ optional "revoked_at" timestamp
      ∷ optional "replaced_by_hash" (string 64)
      ∷ required "created_at" timestamp
      ∷ [];
  uniques = unique "uq_refresh_tokens_token_hash" ("token_hash" ∷ []) ∷ [];
  checks = [];
  foreign_keys = references "user_id" "users" cascade ∷ [];
}

abbrev pub ix_refresh_user_expires : Index
ix_refresh_user_expires = record {
  name = "ix_refresh_user_expires";
  table = "refresh_tokens";
  columns = "user_id" ∷ "expires_at" ∷ [];
  is_unique = false;
  condition = none;
}

abbrev pub idempotency_records : Table
idempotency_records = record {
  name = "idempotency_records";
  columns =
      identifier
      ∷ optional "organization_id" uuid
      ∷ required "user_id" uuid
      ∷ required "scope" (string 120)
      ∷ required "key" (string 160)
      ∷ required "request_hash" (string 64)
      ∷ required "status" (string 20)
      ∷ optional "response_status" integer
      ∷ optional "response_body" jsonb
      ∷ required "created_at" timestamp
      ∷ required "expires_at" timestamp
      ∷ [];
  uniques = unique "uq_idempotency_scope_key" ("scope" ∷ "key" ∷ []) ∷ [];
  checks =
      check "ck_idempotency_records_valid_idempotency_status"
        "status IN ('processing','completed','failed')"
      ∷ [];
  foreign_keys =
      references "organization_id" "organizations" cascade
      ∷ references "user_id" "users" cascade
      ∷ [];
}

abbrev pub ix_idempotency_expires : Index
ix_idempotency_expires = record {
  name = "ix_idempotency_expires";
  table = "idempotency_records";
  columns = "expires_at" ∷ [];
  is_unique = false;
  condition = none;
}

abbrev pub webhook_endpoints : Table
webhook_endpoints = record {
  name = "webhook_endpoints";
  columns =
      identifier
      ∷ required "organization_id" uuid
      ∷ required "url" (string 2048)
      ∷ required "signing_secret_hash" (string 64)
      ∷ required "signing_secret_encrypted" text
      ∷ required "events" jsonb
      ∷ defaulted "is_active" boolean
      ∷ required "created_by" uuid
      ∷ required "created_at" timestamp
      ∷ required "updated_at" timestamp
      ∷ [];
  uniques = [];
  checks = [];
  foreign_keys =
      references "organization_id" "organizations" cascade
      ∷ references "created_by" "users" no_action
      ∷ [];
}

abbrev pub ix_webhook_endpoint_org_active : Index
ix_webhook_endpoint_org_active = record {
  name = "ix_webhook_endpoint_org_active";
  table = "webhook_endpoints";
  columns = "organization_id" ∷ "is_active" ∷ [];
  is_unique = false;
  condition = none;
}

abbrev pub webhook_deliveries : Table
webhook_deliveries = record {
  name = "webhook_deliveries";
  columns =
      identifier
      ∷ required "event_id" uuid
      ∷ required "endpoint_id" uuid
      ∷ required "event_type" (string 120)
      ∷ required "payload" jsonb
      ∷ required "state" (string 20)
      ∷ required "attempt_count" integer
      ∷ optional "response_status" integer
      ∷ optional "last_error" text
      ∷ optional "next_retry_at" timestamp
      ∷ required "created_at" timestamp
      ∷ required "updated_at" timestamp
      ∷ [];
  uniques = unique "uq_delivery_event_endpoint" ("event_id" ∷ "endpoint_id" ∷ []) ∷ [];
  checks =
      check "ck_webhook_deliveries_valid_delivery_state"
        "state IN ('pending','delivered','retrying','dead')"
      ∷ [];
  foreign_keys = references "endpoint_id" "webhook_endpoints" cascade ∷ [];
}

abbrev pub ix_delivery_state_next_retry : Index
ix_delivery_state_next_retry = record {
  name = "ix_delivery_state_next_retry";
  table = "webhook_deliveries";
  columns = "state" ∷ "next_retry_at" ∷ [];
  is_unique = false;
  condition = none;
}

abbrev pub subscriptions : Table
subscriptions = record {
  name = "subscriptions";
  columns =
      identifier
      ∷ required "organization_id" uuid
      ∷ required "plan" (string 20)
      ∷ required "status" (string 20)
      ∷ optional "stripe_customer_id" (string 255)
      ∷ optional "stripe_subscription_id" (string 255)
      ∷ optional "current_period_end" timestamp
      ∷ required "created_at" timestamp
      ∷ required "updated_at" timestamp
      ∷ [];
  uniques =
      unique "uq_subscription_organization" ("organization_id" ∷ [])
      ∷ unique "uq_subscriptions_stripe_customer_id" ("stripe_customer_id" ∷ [])
      ∷ unique "uq_subscriptions_stripe_subscription_id" ("stripe_subscription_id" ∷ [])
      ∷ [];
  checks =
      check "ck_subscriptions_valid_subscription_plan" "plan IN ('free','pro','business')"
      ∷ check "ck_subscriptions_valid_subscription_status"
          "status IN ('inactive','trialing','active','past_due','cancelled')"
      ∷ [];
  foreign_keys = references "organization_id" "organizations" cascade ∷ [];
}

abbrev pub stripe_events : Table
stripe_events = record {
  name = "stripe_events";
  columns =
      identifier
      ∷ required "stripe_event_id" (string 255)
      ∷ required "event_type" (string 160)
      ∷ required "processed_at" timestamp
      ∷ [];
  uniques = unique "uq_stripe_events_stripe_event_id" ("stripe_event_id" ∷ []) ∷ [];
  checks = [];
  foreign_keys = [];
}

abbrev pub audit_logs : Table
audit_logs = record {
  name = "audit_logs";
  columns =
      identifier
      ∷ required "organization_id" uuid
      ∷ optional "actor_id" uuid
      ∷ required "action" (string 160)
      ∷ required "entity_type" (string 120)
      ∷ optional "entity_id" uuid
      ∷ required "metadata" jsonb
      ∷ required "created_at" timestamp
      ∷ [];
  uniques = [];
  checks = [];
  foreign_keys =
      references "organization_id" "organizations" cascade
      ∷ references "actor_id" "users" set_null
      ∷ [];
}

abbrev pub ix_audit_org_created : Index
ix_audit_org_created = record {
  name = "ix_audit_org_created";
  table = "audit_logs";
  columns = "organization_id" ∷ "created_at" ∷ [];
  is_unique = false;
  condition = none;
}
