-- ===== src/Tasks/Service.antt =====
-- app/modules/tasks/service.py, and the bodies of app/modules/tasks/schemas.py.
use tenantflow_api.Prelude.{
  ℕ, ◌==◌, String, ◌&&◌, ◌||◌, Option, none, some, [], ◌∷◌, ◌++◌, holds_id, scalar, update, delete,
  ⊤,
}
use tenantflow_api.Core.Errors.{Error, conflict_error, not_found_error}
use tenantflow_api.Core.Dependencies.{find_membership}
use tenantflow_api.Db.Json.{end, field, str, uuid}
use tenantflow_api.Db.Models.{
  Database, User, Task, TaskStatus, TaskPriority, todo, in_progress, done, cancelled, Attachment,
}
use tenantflow_api.Db.Constraints.{task_fits, task_update_fits}
use tenantflow_api.Db.Session.{
  Platform, Action, pure, raise_if, or_raise, gets, write, flush, now, new_uuid, ◌>>=◌, ◌>>◌,
}
use tenantflow_api.Audit.{record_audit}
use tenantflow_api.Webhooks.Events.{emit_event}
use tenantflow_api.Projects.Service.{
  Patch, unset, set, patched, patched_null, sets_null, find_project,
}

pub record TaskCreate : Type 0 where
  pub project_id : ℕ
  pub title : String
  pub description : Option String
  pub priority : TaskPriority
  pub assignee_id : Option ℕ
  pub due_at : Option ℕ

pub record TaskUpdate : Type 0 where
  pub title : Patch String
  pub description : Patch String
  pub status : Patch TaskStatus
  pub priority : Patch TaskPriority
  pub assignee_id : Patch ℕ
  pub due_at : Patch ℕ

abbrev pub patch_task : TaskUpdate → Task → Task
patch_task u t = record t {
  title = patched u.title t.title;
  description = patched_null u.description t.description;
  status = patched u.status t.status;
  priority = patched u.priority t.priority;
  assignee_id = patched_null u.assignee_id t.assignee_id;
  due_at = patched_null u.due_at t.due_at;
}

abbrev pub status_text : TaskStatus → String
status_text todo = "todo"
status_text in_progress = "in_progress"
status_text done = "done"
status_text cancelled = "cancelled"

-- `"task.completed" if task.status == "done" else "task.updated"`
abbrev pub update_event : TaskStatus → String
update_event done = "task.completed"
update_event _ = "task.updated"

abbrev pub insert_task : Task → Database → Database
insert_task r d = record d { tasks = d.tasks ++ r ∷ [] }

unfoldable pub update_task_row : ℕ → TaskUpdate → Database → Database
update_task_row k payload d = record d {
  tasks = update (λ (t : Task). t.id == k) (patch_task payload) d.tasks;
}

-- DELETE FROM tasks WHERE id = …, with the attachments of the task
unfoldable pub delete_task_row : Task → Database → Database
delete_task_row t d = record d {
  tasks = delete (λ (x : Task). x.id == t.id) d.tasks;
  attachments =
      delete (λ (a : Attachment). a.organization_id == t.organization_id && holds_id a.task_id t.id)
        d.attachments;
}

unfoldable pub find_task : ℕ → ℕ → Database → Option Task
find_task o k d = scalar (λ (t : Task). t.id == k && t.organization_id == o) d.tasks

unfoldable pub validate_project : ℕ → ℕ → Action ⊤
unfolding find_project
validate_project organization_id project_id = do
  found ← gets (find_project organization_id project_id)
  or_raise found (not_found_error "PROJECT_NOT_FOUND" "Project was not found")
  pure tt

unfoldable pub validate_assignee : ℕ → Option ℕ → Action ⊤
unfolding find_membership
validate_assignee organization_id none = pure tt
validate_assignee organization_id (some user_id) = do
  found ← gets (find_membership organization_id user_id)
  or_raise found (conflict_error "INVALID_ASSIGNEE" "Assignee must belong to this organization")
  pure tt

-- `if "assignee_id" in values`
unfoldable pub validate_patch : ℕ → Patch ℕ → Action ⊤
unfolding validate_assignee
validate_patch organization_id unset = pure tt
validate_patch organization_id (set assignee) = validate_assignee organization_id assignee

unfoldable pub get_task : ℕ → ℕ → Action Task
unfolding find_task
get_task organization_id task_id = do
  found ← gets (find_task organization_id task_id)
  or_raise found (not_found_error "TASK_NOT_FOUND" "Task was not found")

module _ ⦃p : Platform⦄ where
  unfoldable pub create_task : ℕ → User → TaskCreate → Action Task
  unfolding validate_project validate_assignee
  create_task organization_id user payload = do
    validate_project organization_id payload.project_id
    validate_assignee organization_id payload.assignee_id
    created_at ← now
    id ← new_uuid
    let task : Task = record {
      id = id;
      created_at = created_at;
      organization_id = organization_id;
      project_id = payload.project_id;
      title = p.strip payload.title;
      description = payload.description;
      status = todo;
      priority = payload.priority;
      assignee_id = payload.assignee_id;
      created_by = user.id;
      due_at = payload.due_at;
    }
    flush (λ d. task_fits d task) (insert_task task)
    record_audit organization_id (some user.id) "task.created" "task" (some id) end
    emit_event organization_id "task.created" (
        field "task_id" (uuid id)
          (field "project_id" (uuid payload.project_id) (field "title" (str task.title) end)))
    pure task

  unfoldable pub update_task : ℕ → ℕ → User → TaskUpdate → Action Task
  unfolding get_task validate_patch update_task_row
  update_task organization_id task_id user payload = do
    task ← get_task organization_id task_id
    validate_patch organization_id payload.assignee_id
    let changed = patch_task payload task
    raise_if (sets_null payload.title || sets_null payload.status || sets_null payload.priority)
        Error.integrity
    flush (λ d. task_update_fits d changed) (update_task_row task.id payload)
    record_audit organization_id (some user.id) "task.updated" "task" (some task.id) end
    emit_event organization_id (update_event changed.status) (
        field "task_id" (uuid task.id) (
          field "project_id" (uuid task.project_id)
            (field "status" (str (status_text changed.status)) end)))
    pure changed

  unfoldable pub delete_task : ℕ → ℕ → User → Action ⊤
  unfolding get_task delete_task_row
  delete_task organization_id task_id user = do
    task ← get_task organization_id task_id
    record_audit organization_id (some user.id) "task.deleted" "task" (some task.id)
        (field "title" (str task.title) (field "project_id" (uuid task.project_id) end))
    emit_event organization_id "task.deleted"
        (field "task_id" (uuid task.id) (field "project_id" (uuid task.project_id) end))
    write (delete_task_row task)
