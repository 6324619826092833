-- ===== src/Tenancy/Endpoints.antt =====
-- Tenant isolation of the endpoints: app/modules/*/router.py, each in its transaction.
use tenantflow_api.Prelude.{ℕ, String}
use tenantflow_api.Core.Errors.{Error, Result, ok, err}
use tenantflow_api.Core.Permissions.{Permission}
use tenantflow_api.Core.Dependencies.{OrganizationContext, get_user, require_permission}
use tenantflow_api.Db.Models.{Database}
use tenantflow_api.Db.Session.{Platform, World, Action, request, ◌>>=◌}
use tenantflow_api.Db.Session.Triple.{
  Returns, Keeps, Triple-bind, Triple-pure, Triple-gets, Triple-or_raise, Triple-raise_if,
  Triple-weaken,
}
use tenantflow_api.Access.{require_permission-Keeps}
use tenantflow_api.Infra.Idempotency.{canonical_request_hash}
use tenantflow_api.Organizations.Schemas.{InviteMemberRequest, validate_key, dump_invite}
use tenantflow_api.Organizations.Router as OrganizationsRouter
use tenantflow_api.Organizations.Router.{invite_once}
use tenantflow_api.Projects.Service.{ProjectCreate, ProjectUpdate}
use tenantflow_api.Projects.Router as ProjectsRouter
use tenantflow_api.Tasks.Service.{TaskCreate, TaskUpdate}
use tenantflow_api.Tasks.Router as TasksRouter
use tenantflow_api.Files.Router as FilesRouter
use tenantflow_api.Webhooks.Targets.{Network}
use tenantflow_api.Webhooks.Service.{Cipher, WebhookCreate}
use tenantflow_api.Webhooks.Router as WebhooksRouter
use tenantflow_api.Webhooks.Router.{value_error_as_422, recast}
use tenantflow_api.Tenancy.{Within, IsKeyed, SameOutside, audit-Within, isolated}
use tenantflow_api.Tenancy.Projects.{
  create_project-Within, update_project-Within, delete_project-Within,
}
use tenantflow_api.Tenancy.Tasks.{create_task-Within, update_task-Within, delete_task-Within}
use tenantflow_api.Tenancy.Organizations.{update_membership_role-Within, remove_membership-Within}
use tenantflow_api.Tenancy.Webhooks.{
  create_webhook_endpoint-Within, deactivate-Within, retry-Within,
}
use tenantflow_api.Tenancy.Records.{acquire-Claimed, invite_once-Within}
use tenantflow_api.Tenancy.Uploads.{store_upload-Within}

-- What a request on the organization `o` leaves behind: the rows of the other organizations as
-- they were, and unique primary keys.
abbrev pub Isolates : ℕ → Database → Database → Type 0
Isolates o before after = SameOutside o before after × IsKeyed after

-- behind the check of the permission
guarded :
    ⦃p : Platform⦄
    → {A : Type 0} (o : ℕ) (a : Database) (permission : Permission) (token : String)
      (handler : OrganizationContext → Action A)
    → ((c : OrganizationContext) → Keeps (Within o a) (handler c))
    → Keeps (Within o a) (require_permission permission o token >>= handler)
guarded o a permission token handler keeps =
    Triple-bind _ _ (require_permission-Keeps (Within o a) permission o token) keeps

module _ (o : ℕ) (a : Database) where
  recast-Returns :
      {A : Type 0} (r : Result A) (w : World)
      → Returns (λ _ v. Within o a v.db) (r, w)
      → Returns (λ _ v. Within o a v.db) (recast r, w)
  recast-Returns (ok x) w h = h
  recast-Returns (err (Error.value_error detail)) w h = tt
  recast-Returns (err e) w h = tt

  recast-Within :
      {A : Type 0} (m : Action A) → Keeps (Within o a) m → Keeps (Within o a) (value_error_as_422 m)
  unfolding value_error_as_422
  recast-Within m k = record { at = λ w h. let (r, v) = m w in recast-Returns r v (k.at w h) }

module _ ⦃p : Platform⦄ (o : ℕ) (token : String) (w : World) (k : IsKeyed w.db) where
  -- Creating, changing and deleting a project in an organization changes no row of another
  -- organization, whatever the ids in the request, if the primary keys are unique before; and they
  -- stay unique.
  pub projects_isolated :
      (payload : ProjectCreate) (change : ProjectUpdate) (project_id : ℕ)
      → Isolates o w.db (request (ProjectsRouter.create o payload token) w).1.db
        × Isolates o w.db (request (ProjectsRouter.update o project_id change token) w).1.db
        × Isolates o w.db (request (ProjectsRouter.delete o project_id token) w).1.db
  unfolding ProjectsRouter.create ProjectsRouter.update ProjectsRouter.delete
  projects_isolated payload change project_id = (
    isolated o _ (λ a. guarded o a _ token _ (λ c. create_project-Within o a c.user payload)) w k,
    isolated o _
        (λ a. guarded o a _ token _ (λ c. update_project-Within o a project_id c.user change)) w k,
    isolated o _ (λ a. guarded o a _ token _ (λ c. delete_project-Within o a project_id c.user)) w
        k,
  )

  -- Creating, changing and deleting a task in an organization changes no row of another
  -- organization, whatever the ids in the request, if the primary keys are unique before; and they
  -- stay unique.
  pub tasks_isolated :
      (payload : TaskCreate) (change : TaskUpdate) (task_id : ℕ)
      → Isolates o w.db (request (TasksRouter.create o payload token) w).1.db
        × Isolates o w.db (request (TasksRouter.update o task_id change token) w).1.db
        × Isolates o w.db (request (TasksRouter.delete o task_id token) w).1.db
  unfolding TasksRouter.create TasksRouter.update TasksRouter.delete
  tasks_isolated payload change task_id = (
    isolated o _ (λ a. guarded o a _ token _ (λ c. create_task-Within o a c.user payload)) w k,
    isolated o _ (λ a. guarded o a _ token _ (λ c. update_task-Within o a task_id c.user change)) w
        k,
    isolated o _ (λ a. guarded o a _ token _ (λ c. delete_task-Within o a task_id c.user)) w k,
  )

  -- Inviting a member, changing the role of a member and removing a member of an organization
  -- changes no row of another organization, whatever the ids in the request, if the primary keys
  -- are unique before; and they stay unique.
  pub members_isolated :
      (payload : InviteMemberRequest) (key role : String) (membership_id : ℕ)
      → Isolates o w.db (request (OrganizationsRouter.create_invitation o token payload key) w).1.db
        × Isolates o w.db
            (request (OrganizationsRouter.change_member_role o membership_id token role) w).1.db
        × Isolates o w.db (request (OrganizationsRouter.delete_member o membership_id token) w).1.db
  unfolding OrganizationsRouter.create_invitation OrganizationsRouter.change_member_role
      OrganizationsRouter.delete_member validate_key
  members_isolated payload key role membership_id = (
    isolated o _
        (λ a. guarded o a _ token _ λ c. Triple-bind _ _ (Triple-raise_if _ _ _) λ _.
          Triple-bind _ _ (Triple-or_raise _ _ _) λ _.
            Triple-bind _ _
              (Triple-weaken (λ w h. (h.0).0)
                (acquire-Claimed o a (c.user).id (OrganizationsRouter.invite_scope o c.user) key
                  (canonical_request_hash (dump_invite payload))))
              λ state. invite_once-Within o a c.user payload state)
        w k,
    isolated o _
        (λ a. guarded o a _ token _ λ c. Triple-bind _ _ (Triple-or_raise _ _ _) λ new_role.
          Triple-bind _ _
            (Triple-weaken (λ w h. h.0)
              (update_membership_role-Within o a membership_id c.user new_role))
            λ m. Triple-bind _ _ (Triple-gets _ (get_user m.user_id)) λ found.
              Triple-bind _ _ (Triple-or_raise _ found _) λ u. Triple-pure _ (λ w h. (h.0).0))
        w k,
    isolated o _
        (λ a. guarded o a _ token _ (λ c. remove_membership-Within o a membership_id c.user)) w k,
  )

  -- Registering a webhook endpoint, deactivating one, retrying a delivery and presigning an upload
  -- in an organization changes no row of another organization, whatever the ids in the request, if
  -- the primary keys are unique before; and they stay unique.
  pub webhooks_isolated :
      (network : Network) (cipher : Cipher) (payload : WebhookCreate)
      (storage : FilesRouter.Storage) (upload : FilesRouter.PresignUploadRequest) (id : ℕ)
      → Isolates o w.db
          (request (WebhooksRouter.create_webhook network cipher o payload token) w).1.db
        × Isolates o w.db (request (WebhooksRouter.deactivate_webhook o id token) w).1.db
        × Isolates o w.db (request (WebhooksRouter.retry_delivery o id token) w).1.db
        × Isolates o w.db (request (FilesRouter.create_upload storage o upload token) w).1.db
  unfolding WebhooksRouter.create_webhook WebhooksRouter.deactivate_webhook
      WebhooksRouter.retry_delivery FilesRouter.create_upload
  webhooks_isolated network cipher payload storage upload id = (
    isolated o _
        (λ a. guarded o a _ token _ λ c. Triple-bind _ _ (Triple-raise_if _ _ _) λ _.
          Triple-weaken (λ w h. h.0)
            (recast-Within o a _ (
              Triple-bind _ _
                (create_webhook_endpoint-Within o a network cipher (c.user).id payload)
                λ e. Triple-bind _ _ (audit-Within o a _ _ _ _ _) λ _. Triple-pure _ (λ w h. h))))
        w k,
    isolated o _ (λ a. guarded o a _ token _ (λ c. deactivate-Within o a id c.user)) w k,
    isolated o _ (λ a. guarded o a _ token _ (λ c. retry-Within o a id c.user)) w k,
    isolated o _
        (λ a. guarded o a _ token _ λ c.
          Triple-bind _ _ (Triple-raise_if _ _ _)
            λ _. Triple-weaken (λ w h. h.0) (store_upload-Within o a storage c.user upload))
        w k,
  )
