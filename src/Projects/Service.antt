-- ===== src/Projects/Service.antt =====
-- app/modules/projects/service.py, and the bodies of app/modules/projects/schemas.py.
use tenantflow_api.Prelude.{
  ℕ, ◌==◌, String, Bool, ◌&&◌, Option, none, some, [], ◌∷◌, ◌++◌, holds_id, scalar, exists, update,
  delete, ◌||◌, true, false, ⊤,
}
use tenantflow_api.Core.Errors.{Error, not_found_error}
use tenantflow_api.Db.Json.{end, field, str, uuid}
use tenantflow_api.Db.Models.{
  Database, User, Project, ProjectStatus, active, archived, Task, Attachment,
}
use tenantflow_api.Db.Constraints.{project_fits, project_update_fits}
use tenantflow_api.Db.Session.{
  Platform, Action, pure, raise_if, or_raise, gets, write, flush, now, new_uuid, ◌>>=◌, ◌>>◌,
}
use tenantflow_api.Audit.{record_audit}
use tenantflow_api.Webhooks.Events.{emit_event}

pub record ProjectCreate : Type 0 where
  pub name : String
  pub description : Option String

-- A field of a PATCH body: left out, or set, perhaps to null.
pub data Patch (A : Type 0) : Type 0 where
  unset : Patch A
  set : Option A → Patch A

pub record ProjectUpdate : Type 0 where
  pub name : Patch String
  pub description : Patch String
  pub status : Patch ProjectStatus

module _ {A : Type 0} where
  -- the new value of a NOT NULL column; a null is refused before
  abbrev pub patched : Patch A → A → A
  patched (set (some a)) old = a
  patched _ old = old

  abbrev pub patched_null : Patch A → Option A → Option A
  patched_null unset old = old
  patched_null (set new) old = new

  abbrev pub sets_null : Patch A → Bool
  sets_null (set none) = true
  sets_null _ = false

abbrev pub patch_project : ProjectUpdate → Project → Project
patch_project u p = record p {
  name = patched u.name p.name;
  description = patched_null u.description p.description;
  status = patched u.status p.status;
}

abbrev pub status_text : ProjectStatus → String
status_text active = "active"
status_text archived = "archived"

abbrev pub insert_project : Project → Database → Database
insert_project r d = record d { projects = d.projects ++ r ∷ [] }

abbrev pub has_id : ℕ → Project → Bool
has_id k x = x.id == k

-- a task of the project (organization_id, id): deleted with it, and its attachments too
abbrev pub is_task_of : ℕ → ℕ → Task → Bool
is_task_of o k t = t.organization_id == o && t.project_id == k

unfoldable pub goes_with_project : ℕ → ℕ → Database → Attachment → Bool
goes_with_project o k d a =
    a.organization_id == o
    && (holds_id a.project_id k
        || exists (λ (t : Task). is_task_of o k t && holds_id a.task_id t.id) d.tasks)

-- DELETE FROM projects WHERE id = …, and the rows that ON DELETE CASCADE takes along
unfoldable pub delete_project_row : Project → Database → Database
unfolding goes_with_project
delete_project_row x d = record d {
  projects = delete (has_id x.id) d.projects;
  tasks = delete (is_task_of x.organization_id x.id) d.tasks;
  attachments = delete (goes_with_project x.organization_id x.id d) d.attachments;
}

unfoldable pub update_project_row : ℕ → ProjectUpdate → Database → Database
update_project_row k payload d = record d {
  projects = update (has_id k) (patch_project payload) d.projects;
}

unfoldable pub find_project : ℕ → ℕ → Database → Option Project
find_project o k d = scalar (λ (x : Project). x.id == k && x.organization_id == o) d.projects

unfoldable pub get_project : ℕ → ℕ → Action Project
unfolding find_project
get_project organization_id project_id = do
  found ← gets (find_project organization_id project_id)
  or_raise found (not_found_error "PROJECT_NOT_FOUND" "Project was not found")

module _ ⦃p : Platform⦄ where
  unfoldable pub create_project : ℕ → User → ProjectCreate → Action Project
  create_project organization_id user payload = do
    created_at ← now
    id ← new_uuid
    let project : Project = record {
      id = id;
      created_at = created_at;
      organization_id = organization_id;
      name = p.strip payload.name;
      description = payload.description;
      status = active;
      created_by = user.id;
    }
    flush (λ d. project_fits d project) (insert_project project)
    record_audit organization_id (some user.id) "project.created" "project" (some id) end
    emit_event organization_id "project.created"
        (field "project_id" (uuid id) (field "name" (str project.name) end))
    pure project

  unfoldable pub update_project : ℕ → ℕ → User → ProjectUpdate → Action Project
  unfolding get_project update_project_row
  update_project organization_id project_id user payload = do
    project ← get_project organization_id project_id
    let changed = patch_project payload project
    raise_if (sets_null payload.name || sets_null payload.status) Error.integrity
    flush (λ d. project_update_fits d changed) (update_project_row project.id payload)
    record_audit organization_id (some user.id) "project.updated" "project" (some project.id) end
    emit_event organization_id "project.updated" (
        field "project_id" (uuid project.id)
          (field "status" (str (status_text changed.status)) end))
    pure changed

  unfoldable pub delete_project : ℕ → ℕ → User → Action ⊤
  unfolding get_project delete_project_row
  delete_project organization_id project_id user = do
    project ← get_project organization_id project_id
    record_audit organization_id (some user.id) "project.deleted" "project" (some project.id)
        (field "name" (str project.name) end)
    emit_event organization_id "project.deleted"
        (field "project_id" (uuid project.id) (field "name" (str project.name) end))
    write (delete_project_row project)
