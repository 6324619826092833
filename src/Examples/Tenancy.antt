-- ===== src/Examples/Tenancy.antt =====
-- Tenant isolation and access control at work.
use tenantflow_api.Prelude.{ℕ, ◌≡◌, refl, String, Bool, true, false, none, some, [], ◌∷◌, arith}
use tenantflow_api.Core.Errors.{ok, err}
use tenantflow_api.Core.Permissions.{project_read}
use tenantflow_api.Core.Dependencies.{
  OrganizationContext, get_current_user, find_membership, require_permission,
}
use tenantflow_api.Db.Models
use tenantflow_api.Db.Models.{Database}
use tenantflow_api.Db.Session.{World, request, pure, ◌>>=◌}
use tenantflow_api.Organizations.Router as OrganizationsRouter
use tenantflow_api.Projects.Service as ProjectsService
use tenantflow_api.Projects.Router as ProjectsRouter
use tenantflow_api.Tasks.Service as TasksService
use tenantflow_api.Tasks.Router as TasksRouter
use tenantflow_api.Webhooks.Targets.{Network}
use tenantflow_api.Webhooks.Service as WebhooksService
use tenantflow_api.Webhooks.Router as WebhooksRouter
use tenantflow_api.Files.Router as FilesRouter
use tenantflow_api.Access.{IsCaller, organization_not_found, request_conceals, request_authorizes}
use tenantflow_api.Tenancy.{IsKeyed}
use tenantflow_api.Tenancy.Endpoints.{
  Isolates, members_isolated, projects_isolated, tasks_isolated, webhooks_isolated,
}
use tenantflow_api.Examples.World.{demo, db, bob, carol, start, at}

start-IsKeyed : IsKeyed db
start-IsKeyed = ground arith

members_isolated_example :
    Isolates 10 db
      (request
        (OrganizationsRouter.create_invitation ⦃p = demo⦄ 10 "alice"
          (record { email = "dave@example.com"; role = "member" })
          "key-0001")
        start).1.db
    × Isolates 10 db
        (request
          (OrganizationsRouter.change_member_role ⦃p = demo⦄ 10 21 "alice" "admin")
          start).1.db
    × Isolates 10 db
        (request (OrganizationsRouter.delete_member ⦃p = demo⦄ 10 21 "alice") start).1.db
members_isolated_example =
    members_isolated ⦃p = demo⦄ 10 "alice" start start-IsKeyed
      (record { email = "dave@example.com"; role = "member" }) "key-0001" "admin" 21

request_conceals_example :
    request (require_permission ⦃p = demo⦄ project_read 10 "carol" >>= λ c. pure c.user) start
    ≡ (err organization_not_found, at 1 db)
unfolding get_current_user find_membership tenantflow_api.Db.Session.◌>>=◌
    tenantflow_api.Prelude.scalar tenantflow_api.Core.Dependencies.get_user
    tenantflow_api.Core.Security.decode_access_token
request_conceals_example =
    request_conceals ⦃p = demo⦄ project_read 10 "carol" (λ c. pure c.user) start (at 1 db) carol
      refl (ground arith)

abbrev project : ProjectsService.ProjectCreate
project = record { name = "Apollo"; description = none }

abbrev renamed : ProjectsService.ProjectUpdate
renamed = record {
  name = ProjectsService.set (some "Gemini");
  description = ProjectsService.unset;
  status = ProjectsService.unset;
}

projects_isolated_example :
    Isolates 10 db (request (ProjectsRouter.create ⦃p = demo⦄ 10 project "alice") start).1.db
    × Isolates 10 db (request (ProjectsRouter.update ⦃p = demo⦄ 10 30 renamed "alice") start).1.db
    × Isolates 10 db (request (ProjectsRouter.delete ⦃p = demo⦄ 10 30 "alice") start).1.db
projects_isolated_example =
    projects_isolated ⦃p = demo⦄ 10 "alice" start start-IsKeyed project renamed 30

abbrev task : TasksService.TaskCreate
task = record {
  project_id = 30;
  title = "Land";
  description = none;
  priority = Models.TaskPriority.low;
  assignee_id = none;
  due_at = none;
}

abbrev finished : TasksService.TaskUpdate
finished = record {
  title = ProjectsService.unset;
  description = ProjectsService.unset;
  status = ProjectsService.set (some Models.TaskStatus.done);
  priority = ProjectsService.unset;
  assignee_id = ProjectsService.unset;
  due_at = ProjectsService.unset;
}

tasks_isolated_example :
    Isolates 10 db (request (TasksRouter.create ⦃p = demo⦄ 10 task "alice") start).1.db
    × Isolates 10 db (request (TasksRouter.update ⦃p = demo⦄ 10 31 finished "alice") start).1.db
    × Isolates 10 db (request (TasksRouter.delete ⦃p = demo⦄ 10 31 "alice") start).1.db
tasks_isolated_example = tasks_isolated ⦃p = demo⦄ 10 "alice" start start-IsKeyed task finished 31

abbrev network : Network
network = record {
  hostname = λ url. some "hooks.example.com";
  ip_address = λ host. none;
  is_global = λ address. true;
  getaddrinfo = λ host. some (7 ∷ []);
}

abbrev cipher : WebhooksService.Cipher
cipher = record { sha256 = λ s. s; encrypt = λ s. s }

abbrev hook : WebhooksService.WebhookCreate
hook = record { url = "https://hooks.example.com"; events = "task.created" ∷ [] }

abbrev storage : FilesRouter.Storage
storage = record {
  object_key = λ o name k. name;
  presign_put = λ key type. key;
  presign_get = λ key. key;
}

abbrev upload : FilesRouter.PresignUploadRequest
upload = record {
  filename = "a.png";
  content_type = "image/png";
  size_bytes = 100;
  project_id = some 30;
  task_id = none;
}

webhooks_isolated_example :
    Isolates 10 db
      (request (WebhooksRouter.create_webhook ⦃p = demo⦄ network cipher 10 hook "alice") start).1.db
    × Isolates 10 db
        (request (WebhooksRouter.deactivate_webhook ⦃p = demo⦄ 10 40 "alice") start).1.db
    × Isolates 10 db (request (WebhooksRouter.retry_delivery ⦃p = demo⦄ 10 40 "alice") start).1.db
    × Isolates 10 db
        (request (FilesRouter.create_upload ⦃p = demo⦄ storage 10 upload "alice") start).1.db
webhooks_isolated_example =
    webhooks_isolated ⦃p = demo⦄ 10 "alice" start start-IsKeyed network cipher hook storage upload
      40

request_authorizes_example :
    (c : OrganizationContext) × IsCaller ⦃p = demo⦄ project_read 10 "bob" c start
    × ((u : World) × (u.db ≡ db) × (pure c.user u ≡ (ok bob, at 1 db)))
unfolding require_permission tenantflow_api.Db.Session.◌>>=◌ tenantflow_api.Prelude.scalar
    tenantflow_api.Core.Dependencies.get_user tenantflow_api.Core.Security.decode_access_token
    find_membership get_current_user request pure tenantflow_api.Core.Permissions.has_permission
request_authorizes_example =
    request_authorizes ⦃p = demo⦄ project_read 10 "bob" (λ c. pure c.user) start (at 1 db) bob refl
