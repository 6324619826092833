-- ===== src/Migrations/Tenants.antt =====
-- alembic/versions/20260817_0001_initial.py: the tables of users, organizations and their work.
use tenantflow_api.Prelude.{true, false, none, some, [], ◌∷◌}
use tenantflow_api.Migrations.Catalog.{
  uuid, text, boolean, timestamp, big_integer, string, no_action, cascade, restrict, Table, Index,
}
use tenantflow_api.Migrations.Columns.{
  identifier, required, optional, defaulted, references, unique, check,
}

abbrev pub users : Table
users = record {
  name = "users";
  columns =
      identifier
      ∷ required "email" (string 320)
      ∷ required "password_hash" (string 255)
      ∷ required "full_name" (string 160)
      ∷ defaulted "is_active" boolean
      ∷ required "created_at" timestamp
      ∷ required "updated_at" timestamp
      ∷ [];
  uniques = unique "uq_users_email" ("email" ∷ []) ∷ [];
  checks = [];
  foreign_keys = [];
}

abbrev pub ix_users_email : Index
ix_users_email = record {
  name = "ix_users_email";
  table = "users";
  columns = "email" ∷ [];
  is_unique = false;
  condition = none;
}

abbrev pub organizations : Table
organizations = record {
  name = "organizations";
  columns =
      identifier
      ∷ required "name" (string 160)
      ∷ required "slug" (string 80)
      ∷ required "created_by" uuid
      ∷ required "created_at" timestamp
      ∷ required "updated_at" timestamp
      ∷ [];
  uniques = unique "uq_organizations_slug" ("slug" ∷ []) ∷ [];
  checks = [];
  foreign_keys = references "created_by" "users" restrict ∷ [];
}

abbrev pub ix_organizations_slug : Index
ix_organizations_slug = record {
  name = "ix_organizations_slug";
  table = "organizations";
  columns = "slug" ∷ [];
  is_unique = false;
  condition = none;
}

abbrev pub organization_memberships : Table
organization_memberships = record {
  name = "organization_memberships";
  columns =
      identifier
      ∷ required "organization_id" uuid
      ∷ required "user_id" uuid
      ∷ required "role" (string 20)
      ∷ required "created_at" timestamp
      ∷ required "updated_at" timestamp
      ∷ [];
  uniques = unique "uq_membership_org_user" ("organization_id" ∷ "user_id" ∷ []) ∷ [];
  checks =
      check "ck_organization_memberships_valid_membership_role"
        "role IN ('owner','admin','member','viewer')"
      ∷ [];
  foreign_keys =
      references "organization_id" "organizations" cascade
      ∷ references "user_id" "users" cascade
      ∷ [];
}

abbrev pub ix_membership_user_org : Index
ix_membership_user_org = record {
  name = "ix_membership_user_org";
  table = "organization_memberships";
  columns = "user_id" ∷ "organization_id" ∷ [];
  is_unique = false;
  condition = none;
}

abbrev pub invitations : Table
invitations = record {
  name = "invitations";
  columns =
      identifier
      ∷ required "organization_id" uuid
      ∷ required "email" (string 320)
      ∷ required "role" (string 20)
      ∷ required "token_hash" (string 64)
      ∷ required "status" (string 20)
      ∷ required "invited_by" uuid
      ∷ required "expires_at" timestamp
      ∷ required "created_at" timestamp
      ∷ required "updated_at" timestamp
      ∷ [];
  uniques = unique "uq_invitations_token_hash" ("token_hash" ∷ []) ∷ [];
  checks =
      check "ck_invitations_valid_invitation_role" "role IN ('admin','member','viewer')"
      ∷ check "ck_invitations_valid_invitation_status"
          "status IN ('pending','accepted','revoked','expired')"
      ∷ [];
  foreign_keys =
      references "organization_id" "organizations" cascade
      ∷ references "invited_by" "users" no_action
      ∷ [];
}

abbrev pub uq_invitation_pending_org_email : Index
uq_invitation_pending_org_email = record {
  name = "uq_invitation_pending_org_email";
  table = "invitations";
  columns = "organization_id" ∷ "email" ∷ [];
  is_unique = true;
  condition = some "status = 'pending'";
}

abbrev pub projects : Table
projects = record {
  name = "projects";
  columns =
      identifier
      ∷ required "organization_id" uuid
      ∷ required "name" (string 160)
      ∷ optional "description" text
      ∷ required "status" (string 20)
      ∷ required "created_by" uuid
      ∷ required "created_at" timestamp
      ∷ required "updated_at" timestamp
      ∷ [];
  uniques =
      unique "uq_project_org_name" ("organization_id" ∷ "name" ∷ [])
      ∷ unique "uq_project_org_id" ("organization_id" ∷ "id" ∷ [])
      ∷ [];
  checks = check "ck_projects_valid_project_status" "status IN ('active','archived')" ∷ [];
  foreign_keys =
      references "organization_id" "organizations" cascade
      ∷ references "created_by" "users" no_action
      ∷ [];
}

abbrev pub ix_project_org_created : Index
ix_project_org_created = record {
  name = "ix_project_org_created";
  table = "projects";
  columns = "organization_id" ∷ "created_at" ∷ [];
  is_unique = false;
  condition = none;
}

abbrev pub tasks : Table
tasks = record {
  name = "tasks";
  columns =
      identifier
      ∷ required "organization_id" uuid
      ∷ required "project_id" uuid
      ∷ required "title" (string 200)
      ∷ optional "description" text
      ∷ required "status" (string 20)
      ∷ required "priority" (string 20)
      ∷ optional "assignee_id" uuid
      ∷ required "created_by" uuid
      ∷ optional "due_at" timestamp
      ∷ required "created_at" timestamp
      ∷ required "updated_at" timestamp
      ∷ [];
  uniques = unique "uq_task_org_id" ("organization_id" ∷ "id" ∷ []) ∷ [];
  checks =
      check "ck_tasks_valid_task_status" "status IN ('todo','in_progress','done','cancelled')"
      ∷ check "ck_tasks_valid_task_priority" "priority IN ('low','medium','high','urgent')"
      ∷ [];
  foreign_keys =
      references "organization_id" "organizations" cascade
      ∷ references "assignee_id" "users" no_action
      ∷ references "created_by" "users" no_action
      ∷ record {
        columns = "organization_id" ∷ "project_id" ∷ [];
        table = "projects";
        targets = "organization_id" ∷ "id" ∷ [];
        on_delete = cascade;
      }
      ∷ [];
}

abbrev pub ix_task_org_project_created : Index
ix_task_org_project_created = record {
  name = "ix_task_org_project_created";
  table = "tasks";
  columns = "organization_id" ∷ "project_id" ∷ "created_at" ∷ [];
  is_unique = false;
  condition = none;
}

abbrev pub ix_task_org_assignee_status : Index
ix_task_org_assignee_status = record {
  name = "ix_task_org_assignee_status";
  table = "tasks";
  columns = "organization_id" ∷ "assignee_id" ∷ "status" ∷ [];
  is_unique = false;
  condition = none;
}

abbrev pub attachments : Table
attachments = record {
  name = "attachments";
  columns =
      identifier
      ∷ required "organization_id" uuid
      ∷ optional "project_id" uuid
      ∷ optional "task_id" uuid
      ∷ required "object_key" (string 512)
      ∷ required "original_filename" (string 255)
      ∷ required "content_type" (string 160)
      ∷ required "size_bytes" big_integer
      ∷ required "created_by" uuid
      ∷ required "created_at" timestamp
      ∷ required "updated_at" timestamp
      ∷ [];
  uniques = unique "uq_attachments_object_key" ("object_key" ∷ []) ∷ [];
  checks =
      check "ck_attachments_attachment_exactly_one_parent"
        "(project_id IS NOT NULL) <> (task_id IS NOT NULL)"
      ∷ check "ck_attachments_attachment_positive_size" "size_bytes > 0"
      ∷ [];
  foreign_keys =
      references "organization_id" "organizations" cascade
      ∷ references "created_by" "users" no_action
      ∷ record {
        columns = "organization_id" ∷ "project_id" ∷ [];
        table = "projects";
        targets = "organization_id" ∷ "id" ∷ [];
        on_delete = cascade;
      }
      ∷ record {
        columns = "organization_id" ∷ "task_id" ∷ [];
        table = "tasks";
        targets = "organization_id" ∷ "id" ∷ [];
        on_delete = cascade;
      }
      ∷ [];
}

abbrev pub ix_attachment_org_object : Index
ix_attachment_org_object = record {
  name = "ix_attachment_org_object";
  table = "attachments";
  columns = "organization_id" ∷ "object_key" ∷ [];
  is_unique = false;
  condition = none;
}
