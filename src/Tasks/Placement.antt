-- ===== src/Tasks/Placement.antt =====
-- app/modules/tasks/service.py: where a new task may stand, and to whom it may be assigned.
use tenantflow_api.Prelude.{
  ℕ, ◌≡◌, refl, ◌∙◌, true, ◌&&◌, Option, none, some, List, [], ◌∷◌, ◌++◌, arith, ⊤, ◌==◌, scalar,
  scalar-append_none, scalar_fresh, scalar_own,
}
use tenantflow_api.Core.Errors.{ok}
use tenantflow_api.Core.Dependencies.{find_membership}
use tenantflow_api.Db.Models.{Database, User, Project, Task, todo, OrganizationMembership}
use tenantflow_api.Db.Constraints.{task_clash, task_fits}
use tenantflow_api.Db.Session.{Platform, World, request}
use tenantflow_api.Db.Session.Triple.{
  Triple, Triple-bind, Triple-pure, Triple-gets, Triple-or_raise, Triple-flush, Triple-run,
  Keeps-now, Keeps-new_uuid, request_returns,
}
use tenantflow_api.Audit.{insert_audit_log}
use tenantflow_api.Audit.Keeps.{record_audit-Keeps}
use tenantflow_api.Webhooks.Events.Keeps.{emit_event-Keeps}
use tenantflow_api.Projects.Service.{find_project}
use tenantflow_api.Tasks.Service.{
  TaskCreate, find_task, validate_project, validate_assignee, create_task,
}

-- nobody, or a user with a membership of the organization
abbrev pub Assignable : ℕ → Option ℕ → List OrganizationMembership → Type 0
Assignable o none ms = ⊤
Assignable o (some k) ms =
    (m : OrganizationMembership) × (scalar
        (λ (x : OrganizationMembership). x.organization_id == o && x.user_id == k) ms
      ≡ some m)

abbrev pub InProject : ℕ → ℕ → Database → Type 0
InProject o k d = (x : Project) × (find_project o k d ≡ some x)

-- the task is stored, in a project of the organization, for nobody or for a member of it
pub record IsPlaced (o : ℕ) (payload : TaskCreate) (t : Task) (d : Database) : Type 0 where
  pub stored : find_task o t.id d ≡ some t
  pub project : InProject o t.project_id d
  pub assignee : Assignable o t.assignee_id d.memberships
  pub as_asked : (t.project_id ≡ payload.project_id) × (t.assignee_id ≡ payload.assignee_id)

validate_project-InProject :
    (o k : ℕ) → Triple (λ w. ⊤) (validate_project o k) (λ _ w. InProject o k w.db)
unfolding validate_project
validate_project-InProject o k = Triple-bind _ _ (Triple-gets (λ w. ⊤) (find_project o k)) λ found.
    Triple-bind _ _ (Triple-or_raise _ found _) λ x. Triple-pure _ (λ w h. (x, (h.0).1 ∙ h.1))

validate_assignee-Assignable :
    (o : ℕ) (a : Option ℕ) (P : Database → Type 0)
    → Triple (λ w. P w.db) (validate_assignee o a) (λ _ w. P w.db × Assignable o a w.db.memberships)
unfolding validate_assignee find_membership
validate_assignee-Assignable o none P = Triple-pure _ (λ w h. (h, tt))
validate_assignee-Assignable o (some k) P =
    Triple-bind _ _ (Triple-gets (λ w. P w.db) (find_membership o k)) λ found.
      Triple-bind _ _ (Triple-or_raise _ found _)
        λ m. Triple-pure _ (λ w h. ((h.0).0, (m, (h.0).1 ∙ h.1)))

module _ ⦃p : Platform⦄ (o : ℕ) (user : User) (payload : TaskCreate) where
  abbrev Placeable : Database → Type 0
  Placeable d = InProject o payload.project_id d × Assignable o payload.assignee_id d.memberships

  stored_lem :
      (t : Task) (d : Database)
      → t.organization_id ≡ o
      → task_fits d t ≡ true
      → scalar (λ (x : Task). x.id == t.id && x.organization_id == o) (d.tasks ++ t ∷ []) ≡ some t
  unfolding task_fits
  stored_lem t d mine fits =
      let q = λ (x : Task). x.id == t.id && x.organization_id == o in
      scalar-append_none q d.tasks _
        (scalar_fresh q (task_clash t) d.tasks (λ x h. ground arith) (ground arith))
      ∙ scalar_own q t (ground arith)

  pub create_task-IsPlaced :
      Triple (λ w. ⊤) (create_task o user payload) (λ t w. IsPlaced o payload t w.db)
  unfolding create_task find_project find_task insert_audit_log
  create_task-IsPlaced = Triple-bind _ _ (validate_project-InProject o payload.project_id) λ _.
      Triple-bind _ _
        (validate_assignee-Assignable o payload.assignee_id (InProject o payload.project_id))
        λ _. Triple-bind _ _ (Keeps-now Placeable) λ created_at.
          Triple-bind _ _ (Keeps-new_uuid Placeable) λ id.
            let t : Task = record {
              id = id;
              created_at = created_at;
              organization_id = o;
              project_id = payload.project_id;
              title = p.strip payload.title;
              description = payload.description;
              status = todo;
              priority = payload.priority;
              assignee_id = payload.assignee_id;
              created_by = user.id;
              due_at = payload.due_at;
            } in
            let Q = λ (d : Database). Placeable d × (find_task o id d ≡ some t) in
            Triple-bind _ _
              (Triple-flush {Q = λ _ w. Q w.db} _ _ (λ w h fits. (h, stored_lem t w.db refl fits)))
              λ _. Triple-bind _ _ (record_audit-Keeps Q o (λ d r e h. h) _ _ _ _ _) λ _.
                Triple-bind _ _ (emit_event-Keeps Q (λ d r h. h) o _ _) λ _. Triple-pure _ (λ w h.
                  record {
                    stored = h.1;
                    project = (h.0).0;
                    assignee = (h.0).1;
                    as_asked = (refl, refl);
                  })

  -- A task that was created is stored in a project of its organization, and is assigned to nobody
  -- or to a member of the organization, as the request asked.
  pub created-IsPlaced :
      (t : Task) (w v : World)
      → request (create_task o user payload) w ≡ (ok t, v)
      → IsPlaced o payload t v.db
  created-IsPlaced t w v e =
      Triple-run create_task-IsPlaced w v t tt
        (request_returns (create_task o user payload) w v t e)
