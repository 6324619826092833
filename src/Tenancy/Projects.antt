-- ===== src/Tenancy/Projects.antt =====
-- Tenant isolation of app/modules/projects/service.py.
use tenantflow_api.Prelude.{
  ℕ, ◌≡◌, refl, sym, ◌∙◌, true, some, arith, All, scalar_passes, All-of, subst, ◌==◌, ◌&&◌,
  outside-append, outside-update, outside-delete, owned, Unique-insert, Unique-update,
  Unique-delete,
}
use tenantflow_api.Db.Models.{Database, User, Project, Task, Attachment}
use tenantflow_api.Db.Constraints.{project_clash, project_fits}
use tenantflow_api.Db.Session.{Platform}
use tenantflow_api.Db.Session.Triple.{
  Keeps, Triple-bind, Triple-pure, Triple-find, Triple-raise_if, Triple-flush, Triple-write,
  Keeps-now, Keeps-new_uuid,
}
use tenantflow_api.Audit.{insert_audit_log}
use tenantflow_api.Audit.Keeps.{record_audit-Keeps}
use tenantflow_api.Webhooks.Events.Keeps.{emit_owned-Keeps}
use tenantflow_api.Projects.Service.{
  ProjectCreate, ProjectUpdate, patch_project, insert_project, has_id, is_task_of,
  goes_with_project, delete_project_row, update_project_row, find_project, get_project,
  create_project, update_project, delete_project,
}
use tenantflow_api.Tenancy.{
  Within, IsKeyed, audit-Within, emit-Within, Within-insert_audit_log, Within-insert_delivery, Own,
  Within-owns,
}

find_project_id : (o k : ℕ) (d : Database) (x : Project) → find_project o k d ≡ some x → x.id ≡ k
unfolding find_project
find_project_id o k d x e =
    ground
      (arith, scalar_passes (λ (y : Project). y.id == k && y.organization_id == o) d.projects x e)

pub find_project_org :
    (o k : ℕ) (d : Database) (x : Project) → find_project o k d ≡ some x → x.organization_id ≡ o
unfolding find_project
find_project_org o k d x e =
    ground
      (arith, scalar_passes (λ (y : Project). y.id == k && y.organization_id == o) d.projects x e)

goes_with_project_org :
    (o k : ℕ) (d : Database) (x : Attachment)
    → goes_with_project o k d x ≡ true
    → x.organization_id ≡ o
unfolding goes_with_project
goes_with_project_org o k d x e = ground arith

Within-insert_project :
    (o : ℕ) (a d : Database) (r : Project)
    → r.organization_id ≡ o
    → project_fits d r ≡ true
    → Within o a d
    → Within o a (insert_project r d)
unfolding project_fits
Within-insert_project o a d r e fits h = (
  ground (arith, outside-append (λ (x : Project). x.organization_id) o d.projects r e),
  assumption (
    h.1,
    Unique-insert (λ (x : Project). x.id) (project_clash r) d.projects r (λ x same. ground arith)
        h.1.projects (ground arith),
  ),
)

-- the rows of a project that was found within the organization are the organization's
found_owned :
    (o k : ℕ) (d : Database) (x : Project)
    → IsKeyed d
    → find_project o k d ≡ some x
    → All (λ (y : Project). has_id x.id y ≡ true → y.organization_id ≡ o) d.projects
unfolding find_project
found_owned o k d x h e =
    subst (λ j. All (λ (y : Project). has_id j y ≡ true → y.organization_id ≡ o) d.projects)
      (sym (find_project_id o k d x e))
      (owned (λ (y : Project). y.organization_id) o (λ y. y.id) k d.projects x h.projects e)

Within-update_project_row :
    (o k : ℕ) (a d : Database) (x : Project) (payload : ProjectUpdate)
    → find_project o k d ≡ some x
    → Within o a d
    → Within o a (update_project_row x.id payload d)
unfolding update_project_row
Within-update_project_row o k a d x payload e h = (
  ground (
    arith,
    outside-update (λ (y : Project). y.organization_id) o (has_id x.id) (patch_project payload)
        (λ y. refl) d.projects (found_owned o k d x h.1 e),
  ),
  assumption (
    h.1,
    Unique-update (λ (y : Project). y.id) (has_id x.id) (patch_project payload) (λ y. refl)
        d.projects h.1.projects,
  ),
)

Within-delete_project_row :
    (o k : ℕ) (a d : Database) (x : Project)
    → find_project o k d ≡ some x
    → Within o a d
    → Within o a (delete_project_row x d)
unfolding delete_project_row
Within-delete_project_row o k a d x e h =
    let mine = find_project_org o k d x e in
    (
      ground (
        arith,
        outside-delete (λ (y : Project). y.organization_id) o (has_id x.id) d.projects
            (found_owned o k d x h.1 e),
        outside-delete (λ (t : Task). t.organization_id) o (is_task_of x.organization_id x.id)
            d.tasks (All-of _ (λ t hit. ground arith) d.tasks),
        outside-delete (λ (t : Attachment). t.organization_id) o
            (goes_with_project x.organization_id x.id d) d.attachments
            (All-of _ (λ t hit. goes_with_project_org x.organization_id x.id d t hit ∙ mine)
              d.attachments),
      ),
      assumption (
        h.1,
        Unique-delete (λ (y : Project). y.id) (has_id x.id) d.projects h.1.projects,
        Unique-delete (λ (t : Task). t.id) (is_task_of x.organization_id x.id) d.tasks h.1.tasks,
      ),
    )

module _ ⦃p : Platform⦄ (o : ℕ) (a : Database) where
  -- A new project is the only change of the rows of projects.
  pub create_project-Within :
      (user : User) (payload : ProjectCreate) → Keeps (Within o a) (create_project o user payload)
  unfolding create_project
  create_project-Within user payload = Triple-bind _ _ (Keeps-now (Within o a)) λ created_at.
      Triple-bind _ _ (Keeps-new_uuid (Within o a)) λ id.
        Triple-bind _ _
          (Triple-flush _ _ (λ w h fits. Within-insert_project o a w.db _ refl fits h))
          λ _.
            Triple-bind _ _ (audit-Within o a _ _ _ _ _)
              λ _. Triple-bind _ _ (emit-Within o a _ _) λ _. Triple-pure _ (λ w h. h)

  pub update_project-Within :
      (project_id : ℕ) (user : User) (payload : ProjectUpdate)
      → Keeps (Within o a) (update_project o project_id user payload)
  unfolding update_project get_project
  update_project-Within project_id user payload =
      Triple-bind _ _ (Triple-find _ (find_project o project_id) _) λ x.
        Triple-bind _ _ (Triple-raise_if _ _ _) λ _.
          Triple-bind _ _
            (Triple-flush _ _
              (λ w h fits. Within-update_project_row o project_id a w.db x payload (h.0).1 (h.0).0))
            λ _.
              Triple-bind _ _ (audit-Within o a _ _ _ _ _)
                λ _. Triple-bind _ _ (emit-Within o a _ _) λ _. Triple-pure _ (λ w h. h)

  -- the project is still there after the audit row and the deliveries
  abbrev Found : ℕ → Project → Database → Type 0
  Found k x d = Within o a d × (find_project o k d ≡ some x)

  pub delete_project-Within :
      (project_id : ℕ) (user : User) → Keeps (Within o a) (delete_project o project_id user)
  unfolding delete_project get_project find_project insert_audit_log
  delete_project-Within project_id user =
      Triple-bind _ _ (Triple-find _ (find_project o project_id) _) λ x.
        Triple-bind _ _
          (record_audit-Keeps (Found project_id x) o
            (λ d r e h. (Within-insert_audit_log o a d r e h.0, h.1)) _ _ _ _ _)
          λ _.
            Triple-bind _ _
              (emit_owned-Keeps (Found project_id x) (Own o a)
                (λ d r own fits h. (Within-insert_delivery o a d r own fits h.0, h.1)) o _ _
                (λ d h. Within-owns o a d h.0))
              λ _. Triple-write _ (λ w h. Within-delete_project_row o project_id a w.db x h.1 h.0)
