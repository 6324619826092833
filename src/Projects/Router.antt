-- ===== src/Projects/Router.antt =====
-- app/modules/projects/router.py.
use tenantflow_api.Prelude.{
  ℕ, ◌==◌, String, not, ◌&&◌, Option, none, some, List, [], ◌∷◌, leb, select, ⊤,
}
use tenantflow_api.Core.Errors.{Error, ok, err}
use tenantflow_api.Core.Permissions.{project_read, project_write, project_delete}
use tenantflow_api.Core.Dependencies.{require_permission}
use tenantflow_api.Core.Pagination.{Cursor, Page, encode_cursor, decode_cursor, page_of}
use tenantflow_api.Db.Models.{Database, Project}
use tenantflow_api.Db.Session.{Platform, Action, pure, raise, raise_if, gets, ◌>>=◌, ◌>>◌}
use tenantflow_api.Projects.Service.{
  ProjectCreate, ProjectUpdate, get_project, create_project, update_project, delete_project,
}

pub record ProjectPage : Type 0 where
  pub items : List Project
  pub next_cursor : Option (List ℕ)

module _ ⦃p : Platform⦄ where
  -- `if cursor:` passes over the empty text; a ValueError becomes a 422
  unfoldable pub read_cursor : Option (List ℕ) → Action (Option Cursor)
  unfolding decode_cursor
  read_cursor none = pure none
  read_cursor (some []) = pure none
  read_cursor (some (c ∷ cs)) = elim (decode_cursor p.cursor_json (c ∷ cs)) [
    | ok position ↦ pure (some position)
    | err (Error.value_error detail) ↦ raise (Error.http 422 detail none)
    | err e ↦ raise e
  ]

  abbrev pub write_cursor : Option Cursor → Option (List ℕ)
  write_cursor none = none
  write_cursor (some c) = some (encode_cursor p.cursor_json c.created_at c.entity_id)

  unfoldable pub create : ℕ → ProjectCreate → String → Action Project
  unfolding create_project require_permission
  create organization_id payload token = do
    context ← require_permission project_write organization_id token
    create_project organization_id context.user payload

  unfoldable pub project_page : ℕ → Option Cursor → ℕ → Database → Page Project
  unfolding page_of
  project_page organization_id position limit d =
      page_of (λ (x : Project). x.created_at) (λ x. x.id) limit position
        (select (λ (x : Project). x.organization_id == organization_id) d.projects)

  unfoldable pub list_projects : ℕ → Option (List ℕ) → ℕ → String → Action ProjectPage
  unfolding read_cursor project_page require_permission
  list_projects organization_id cursor limit token = do
    require_permission project_read organization_id token
    raise_if (not (leb 1 limit && leb limit 100)) Error.validation
    position ← read_cursor cursor
    page ← gets (project_page organization_id position limit)
    pure (record { items = page.items; next_cursor = write_cursor page.next_position })

  unfoldable pub retrieve : ℕ → ℕ → String → Action Project
  unfolding get_project require_permission
  retrieve organization_id project_id token = do
    require_permission project_read organization_id token
    get_project organization_id project_id

  unfoldable pub update : ℕ → ℕ → ProjectUpdate → String → Action Project
  unfolding update_project require_permission
  update organization_id project_id payload token = do
    context ← require_permission project_write organization_id token
    update_project organization_id project_id context.user payload

  unfoldable pub delete : ℕ → ℕ → String → Action ⊤
  unfolding delete_project require_permission
  delete organization_id project_id token = do
    context ← require_permission project_delete organization_id token
    delete_project organization_id project_id context.user
