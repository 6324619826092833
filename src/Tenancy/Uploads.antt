-- ===== src/Tenancy/Uploads.antt =====
-- Tenant isolation of app/modules/files/router.py.
use tenantflow_api.Prelude.{ℕ, ◌≡◌, refl, arith, outside-append}
use tenantflow_api.Db.Models.{Database, User, Attachment}
use tenantflow_api.Db.Session.{Platform}
use tenantflow_api.Db.Session.Triple.{
  Keeps, Triple-bind, Triple-pure, Triple-gets, Triple-raise_if, Triple-flush, Triple-weaken,
  Triple-lift, Keeps-now, Keeps-new_uuid,
}
use tenantflow_api.Files.Router.{
  Storage, PresignUploadRequest, insert_attachment, project_known, task_known, store_upload,
}
use tenantflow_api.Tenancy.{Within}

Within-insert_attachment :
    (o : ℕ) (a d : Database) (r : Attachment)
    → r.organization_id ≡ o
    → Within o a d
    → Within o a (insert_attachment r d)
Within-insert_attachment o a d r e h = (
  ground (arith, outside-append (λ (x : Attachment). x.organization_id) o d.attachments r e),
  assumption h.1,
)

module _ ⦃p : Platform⦄ (o : ℕ) (a : Database) where
  pub store_upload-Within :
      (storage : Storage) (user : User) (payload : PresignUploadRequest)
      → Keeps (Within o a) (store_upload storage o user payload)
  unfolding store_upload
  store_upload-Within storage user payload = Triple-bind _ _ (Triple-lift _ _) λ _.
      Triple-bind _ _ (Triple-gets _ (project_known o payload.project_id)) λ known_project.
        Triple-bind _ _ (Triple-raise_if _ _ _) λ _.
          Triple-bind _ _ (Triple-gets _ (task_known o payload.task_id)) λ known_task.
            Triple-bind _ _ (Triple-raise_if _ _ _) λ _.
              Triple-bind _ _
                (Triple-weaken (λ w h. ((((h.0).0).0).0).0) (Keeps-new_uuid (Within o a)))
                λ _. Triple-bind _ _ (Keeps-now (Within o a)) λ created_at.
                  Triple-bind _ _ (Keeps-new_uuid (Within o a)) λ id.
                    Triple-bind _ _
                      (Triple-flush _ _ (λ w h fits. Within-insert_attachment o a w.db _ refl h))
                      λ _. Triple-pure _ (λ w h. h)
