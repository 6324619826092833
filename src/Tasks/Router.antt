-- ===== src/Tasks/Router.antt =====
-- app/modules/tasks/router.py.
use tenantflow_api.Prelude.{
  ℕ, ◌==◌, String, Bool, true, false, not, ◌&&◌, Option, none, some, List, leb, holds_id, select, ⊤,
}
use tenantflow_api.Core.Errors.{Error}
use tenantflow_api.Core.Permissions.{project_read, project_write}
use tenantflow_api.Core.Dependencies.{require_permission}
use tenantflow_api.Core.Pagination.{Cursor, Page, page_of}
use tenantflow_api.Db.Models.{
  Database, Task, TaskStatus, TaskPriority, todo, in_progress, done, cancelled, low, medium, high,
  urgent,
}
use tenantflow_api.Db.Session.{Platform, Action, pure, raise_if, gets, ◌>>=◌, ◌>>◌}
use tenantflow_api.Projects.Router.{read_cursor, write_cursor}
use tenantflow_api.Tasks.Service.{
  TaskCreate, TaskUpdate, get_task, create_task, update_task, delete_task,
}

pub record TaskPage : Type 0 where
  pub items : List Task
  pub next_cursor : Option (List ℕ)

-- the query parameters that narrow the list
pub record TaskFilter : Type 0 where
  pub project_id : Option ℕ
  pub status : Option TaskStatus
  pub assignee_id : Option ℕ
  pub priority : Option TaskPriority

abbrev pub same_status : TaskStatus → TaskStatus → Bool
same_status todo todo = true
same_status in_progress in_progress = true
same_status done done = true
same_status cancelled cancelled = true
same_status _ _ = false

abbrev pub same_priority : TaskPriority → TaskPriority → Bool
same_priority low low = true
same_priority medium medium = true
same_priority high high = true
same_priority urgent urgent = true
same_priority _ _ = false

-- a filter that is left out passes every row
abbrev pub if_given : {A : Type 0} → Option A → (A → Bool) → Bool
if_given none test = true
if_given (some a) test = test a

unfoldable pub matches : ℕ → TaskFilter → Task → Bool
matches organization_id f t =
    t.organization_id == organization_id
    && if_given f.project_id (λ k. t.project_id == k)
    && if_given f.status (same_status t.status)
    && if_given f.assignee_id (holds_id t.assignee_id)
    && if_given f.priority (same_priority t.priority)

module _ ⦃p : Platform⦄ where
  unfoldable pub create : ℕ → TaskCreate → String → Action Task
  unfolding create_task require_permission
  create organization_id payload token = do
    context ← require_permission project_write organization_id token
    create_task organization_id context.user payload

  unfoldable pub task_page : ℕ → TaskFilter → Option Cursor → ℕ → Database → Page Task
  unfolding page_of matches
  task_page organization_id filter position limit d =
      page_of (λ (x : Task). x.created_at) (λ x. x.id) limit position
        (select (matches organization_id filter) d.tasks)

  unfoldable pub list_tasks : ℕ → TaskFilter → Option (List ℕ) → ℕ → String → Action TaskPage
  unfolding read_cursor task_page require_permission
  list_tasks organization_id filter cursor limit token = do
    require_permission project_read organization_id token
    raise_if (not (leb 1 limit && leb limit 100)) Error.validation
    position ← read_cursor cursor
    page ← gets (task_page organization_id filter position limit)
    pure (record { items = page.items; next_cursor = write_cursor page.next_position })

  unfoldable pub retrieve : ℕ → ℕ → String → Action Task
  unfolding get_task require_permission
  retrieve organization_id task_id token = do
    require_permission project_read organization_id token
    get_task organization_id task_id

  unfoldable pub update : ℕ → ℕ → TaskUpdate → String → Action Task
  unfolding update_task require_permission
  update organization_id task_id payload token = do
    context ← require_permission project_write organization_id token
    update_task organization_id task_id context.user payload

  unfoldable pub delete : ℕ → ℕ → String → Action ⊤
  unfolding delete_task require_permission
  delete organization_id task_id token = do
    context ← require_permission project_write organization_id token
    delete_task organization_id task_id context.user
