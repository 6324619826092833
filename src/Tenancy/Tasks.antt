-- ===== src/Tenancy/Tasks.antt =====
-- Tenant isolation of app/modules/tasks/service.py.
use tenantflow_api.Prelude.{
  ℕ, ◌≡◌, refl, sym, subst, Bool, true, Option, none, some, arith, All, All-of, scalar_passes, ◌==◌,
  ◌&&◌, holds_id, outside-append, outside-update, outside-delete, owned, Unique-insert,
  Unique-update, Unique-delete,
}
use tenantflow_api.Db.Models.{Database, User, Task, Attachment}
use tenantflow_api.Db.Constraints.{task_clash, task_fits}
use tenantflow_api.Db.Session.{Platform}
use tenantflow_api.Db.Session.Triple.{
  Keeps, Triple-bind, Triple-pure, Triple-find, Triple-gets, Triple-or_raise, Triple-raise_if,
  Triple-flush, Triple-write, Keeps-now, Keeps-new_uuid,
}
use tenantflow_api.Audit.{insert_audit_log}
use tenantflow_api.Audit.Keeps.{record_audit-Keeps}
use tenantflow_api.Webhooks.Events.Keeps.{emit_owned-Keeps}
use tenantflow_api.Core.Dependencies.{find_membership}
use tenantflow_api.Projects.Service.{Patch, unset, set, find_project}
use tenantflow_api.Tasks.Service.{
  TaskCreate, TaskUpdate, patch_task, insert_task, update_task_row, delete_task_row, find_task,
  validate_project, validate_assignee, validate_patch, get_task, create_task, update_task,
  delete_task,
}
use tenantflow_api.Tenancy.{
  Within, IsKeyed, audit-Within, emit-Within, Within-insert_audit_log, Within-insert_delivery, Own,
  Within-owns,
}

abbrev has_task_id : ℕ → Task → Bool
has_task_id k t = t.id == k

pub find_task_id : (o k : ℕ) (d : Database) (x : Task) → find_task o k d ≡ some x → x.id ≡ k
unfolding find_task
find_task_id o k d x e =
    ground (arith, scalar_passes (λ (y : Task). y.id == k && y.organization_id == o) d.tasks x e)

pub find_task_org :
    (o k : ℕ) (d : Database) (x : Task) → find_task o k d ≡ some x → x.organization_id ≡ o
unfolding find_task
find_task_org o k d x e =
    ground (arith, scalar_passes (λ (y : Task). y.id == k && y.organization_id == o) d.tasks x e)

Within-insert_task :
    (o : ℕ) (a d : Database) (r : Task)
    → r.organization_id ≡ o
    → task_fits d r ≡ true
    → Within o a d
    → Within o a (insert_task r d)
unfolding task_fits
Within-insert_task o a d r e fits h = (
  ground (arith, outside-append (λ (x : Task). x.organization_id) o d.tasks r e),
  assumption (
    h.1,
    Unique-insert (λ (x : Task). x.id) (task_clash r) d.tasks r (λ x same. ground arith) h.1.tasks
        (ground arith),
  ),
)

found_owned :
    (o k : ℕ) (d : Database) (x : Task)
    → IsKeyed d
    → find_task o k d ≡ some x
    → All (λ (y : Task). has_task_id x.id y ≡ true → y.organization_id ≡ o) d.tasks
unfolding find_task
found_owned o k d x h e =
    subst (λ j. All (λ (y : Task). has_task_id j y ≡ true → y.organization_id ≡ o) d.tasks)
      (sym (find_task_id o k d x e))
      (owned (λ (y : Task). y.organization_id) o (λ y. y.id) k d.tasks x h.tasks e)

Within-update_task_row :
    (o k : ℕ) (a d : Database) (x : Task) (payload : TaskUpdate)
    → find_task o k d ≡ some x
    → Within o a d
    → Within o a (update_task_row x.id payload d)
unfolding update_task_row
Within-update_task_row o k a d x payload e h = (
  ground (
    arith,
    outside-update (λ (y : Task). y.organization_id) o (has_task_id x.id) (patch_task payload)
        (λ y. refl) d.tasks (found_owned o k d x h.1 e),
  ),
  assumption (
    h.1,
    Unique-update (λ (y : Task). y.id) (has_task_id x.id) (patch_task payload) (λ y. refl) d.tasks
        h.1.tasks,
  ),
)

Within-delete_task_row :
    (o k : ℕ) (a d : Database) (x : Task)
    → find_task o k d ≡ some x
    → Within o a d
    → Within o a (delete_task_row x d)
unfolding delete_task_row
Within-delete_task_row o k a d x e h =
    let mine = find_task_org o k d x e in
    let taken =
      λ (t : Attachment). t.organization_id == x.organization_id && holds_id t.task_id x.id in
    (
      ground (
        arith,
        outside-delete (λ (y : Task). y.organization_id) o (has_task_id x.id) d.tasks
            (found_owned o k d x h.1 e),
        outside-delete (λ (t : Attachment). t.organization_id) o taken d.attachments
            (All-of _ (λ t hit. ground arith) d.attachments),
      ),
      assumption (h.1, Unique-delete (λ (y : Task). y.id) (has_task_id x.id) d.tasks h.1.tasks),
    )

-- the validations write nothing
module _ (P : Database → Type 0) where
  pub validate_project-Keeps : (o k : ℕ) → Keeps P (validate_project o k)
  unfolding validate_project
  validate_project-Keeps o k =
      Triple-bind _ _ (Triple-gets _ (find_project o k))
        λ found. Triple-bind _ _ (Triple-or_raise _ found _) λ x. Triple-pure _ (λ w h. (h.0).0)

  pub validate_assignee-Keeps : (o : ℕ) (user_id : Option ℕ) → Keeps P (validate_assignee o user_id)
  unfolding validate_assignee
  validate_assignee-Keeps o none = Triple-pure _ (λ w h. h)
  validate_assignee-Keeps o (some k) =
      Triple-bind _ _ (Triple-gets _ (find_membership o k))
        λ found. Triple-bind _ _ (Triple-or_raise _ found _) λ x. Triple-pure _ (λ w h. (h.0).0)

  pub validate_patch-Keeps : (o : ℕ) (patch : Patch ℕ) → Keeps P (validate_patch o patch)
  unfolding validate_patch
  validate_patch-Keeps o unset = Triple-pure _ (λ w h. h)
  validate_patch-Keeps o (set assignee) = validate_assignee-Keeps o assignee

module _ ⦃p : Platform⦄ (o : ℕ) (a : Database) where
  pub create_task-Within :
      (user : User) (payload : TaskCreate) → Keeps (Within o a) (create_task o user payload)
  unfolding create_task
  create_task-Within user payload = Triple-bind _ _ (validate_project-Keeps (Within o a) o _) λ _.
      Triple-bind _ _ (validate_assignee-Keeps (Within o a) o _) λ _.
        Triple-bind _ _ (Keeps-now (Within o a)) λ created_at.
          Triple-bind _ _ (Keeps-new_uuid (Within o a)) λ id.
            Triple-bind _ _
              (Triple-flush _ _ (λ w h fits. Within-insert_task o a w.db _ refl fits h))
              λ _.
                Triple-bind _ _ (audit-Within o a _ _ _ _ _)
                  λ _. Triple-bind _ _ (emit-Within o a _ _) λ _. Triple-pure _ (λ w h. h)

  -- the task is still there after what follows its query
  abbrev Found : ℕ → Task → Database → Type 0
  Found k x d = Within o a d × (find_task o k d ≡ some x)

  pub update_task-Within :
      (task_id : ℕ) (user : User) (payload : TaskUpdate)
      → Keeps (Within o a) (update_task o task_id user payload)
  unfolding update_task get_task
  update_task-Within task_id user payload =
      Triple-bind _ _ (Triple-find _ (find_task o task_id) _) λ x.
        Triple-bind _ _ (validate_patch-Keeps (Found task_id x) o _) λ _.
          Triple-bind _ _ (Triple-raise_if _ _ _) λ _.
            Triple-bind _ _
              (Triple-flush _ _
                (λ w h fits. Within-update_task_row o task_id a w.db x payload (h.0).1 (h.0).0))
              λ _.
                Triple-bind _ _ (audit-Within o a _ _ _ _ _)
                  λ _. Triple-bind _ _ (emit-Within o a _ _) λ _. Triple-pure _ (λ w h. h)

  pub delete_task-Within :
      (task_id : ℕ) (user : User) → Keeps (Within o a) (delete_task o task_id user)
  unfolding delete_task get_task find_task insert_audit_log
  delete_task-Within task_id user = Triple-bind _ _ (Triple-find _ (find_task o task_id) _) λ x.
      Triple-bind _ _
        (record_audit-Keeps (Found task_id x) o
          (λ d r e h. (Within-insert_audit_log o a d r e h.0, h.1)) _ _ _ _ _)
        λ _.
          Triple-bind _ _
            (emit_owned-Keeps (Found task_id x) (Own o a)
              (λ d r own fits h. (Within-insert_delivery o a d r own fits h.0, h.1)) o _ _
              (λ d h. Within-owns o a d h.0))
            λ _. Triple-write _ (λ w h. Within-delete_task_row o task_id a w.db x h.1 h.0)
