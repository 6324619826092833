-- ===== src/Files/Uploads.antt =====
-- app/modules/files/router.py: what an upload that was answered leaves, and the download of it.
use tenantflow_api.Prelude.{
  ℕ, ◌≡◌, refl, ◌∙◌, sym, ap, subst, ◌≤◌, ◌<◌, ◌⊎◌, inl, inr, String, Bool, true, false, not, ◌&&◌,
  ◌||◌, Option, none, some, arith, ⊤, ◌==◌, ltb, present, scalar, scalar-append_none, scalar_fresh,
  scalar_own, Bool-cases, and_both, unnegated,
}
use tenantflow_api.Core.Errors.{ok}
use tenantflow_api.Core.Permissions.{project_read, project_write}
use tenantflow_api.Core.Dependencies.{OrganizationContext, require_permission}
use tenantflow_api.Db.Models.{Database, User, Attachment}
use tenantflow_api.Db.Constraints.{attachment_clash, attachment_fits}
use tenantflow_api.Db.Session.{Platform, World, request, ◌>>=◌}
use tenantflow_api.Db.Session.Triple.{
  Triple, Triple-bind, Triple-pure, Triple-gets, Triple-lift, Triple-raise_if, Triple-flush,
  Triple-weaken, Triple-run, Keeps-now, Keeps-new_uuid, request_returns,
}
use tenantflow_api.Access.{require_permission-Keeps, require_permission-db}
use tenantflow_api.Projects.Service.{find_project}
use tenantflow_api.Tasks.Service.{find_task}
use tenantflow_api.Files.Router.{
  Storage, PresignUploadRequest, PresignUploadResponse, max_file_size, allowed_content_type,
  validate_upload, as_unprocessable, valid_request, insert_attachment, project_known, task_known,
  find_attachment, store_upload, create_upload, get_download,
}

-- the one parent that a request names is a project or a task of the organization
abbrev pub InOrganization : ℕ → Option ℕ → Option ℕ → Database → Type 0
InOrganization o project task d =
    ((k : ℕ) × (project ≡ some k) × (task ≡ none) × (present (find_project o k d) ≡ true))
    ⊎ ((k : ℕ) × (task ≡ some k) × (project ≡ none) × (present (find_task o k d) ≡ true))

-- what an upload that was answered says of its request, and of the database before it
pub record IsUploadable (o : ℕ) (payload : PresignUploadRequest) (d : Database) : Type 0 where
  pub allowed : allowed_content_type payload.content_type ≡ true
  pub positive : 0 < payload.size_bytes
  pub bounded : payload.size_bytes ≤ max_file_size
  pub parent : InOrganization o payload.project_id payload.task_id d

upload_bounds :
    (content_type : String) (size : ℕ) (u : ⊤)
    → as_unprocessable (validate_upload content_type size) ≡ ok u
    → (allowed_content_type content_type ≡ true) × (size ≤ max_file_size)
unfolding validate_upload
upload_bounds content_type size u h = elim (Bool-cases (allowed_content_type content_type)) [
  | inl y ↦ (y, let k = rw y at h in ground arith)
  | inr n ↦ absurd (let k = rw n at h in ground arith)
]

one_parent :
    (o : ℕ) (a b : Option ℕ) (d : Database)
    → ((present a && not (present b)) || (not (present a) && present b)) ≡ true
    → project_known o a d ≡ true
    → task_known o b d ≡ true
    → InOrganization o a b d
unfolding project_known task_known
one_parent o none none d h p t = absurd (ground arith)
one_parent o (some j) (some k) d h p t = absurd (ground arith)
one_parent o (some k) none d h p t = inl (k, refl, refl, p)
one_parent o none (some k) d h p t = inr (k, refl, refl, t)

uploadable :
    (o : ℕ) (payload : PresignUploadRequest) (d e : Database) (u : ⊤)
    (known_project known_task : Bool)
    → valid_request payload ≡ true
    → e ≡ d
    → as_unprocessable (validate_upload payload.content_type payload.size_bytes) ≡ ok u
    → (project_known o payload.project_id e ≡ known_project) × (not known_project ≡ false)
    → (task_known o payload.task_id e ≡ known_task) × (not known_task ≡ false)
    → IsUploadable o payload d
unfolding valid_request
uploadable o payload d e u known_project known_task valid same passed project task =
    let (allowed, bounded) = upload_bounds payload.content_type payload.size_bytes u passed in
    let (positive, one) = and_both (ltb 0 payload.size_bytes) _ valid in
    record {
      allowed = allowed;
      positive = ground arith;
      bounded = bounded;
      parent = subst (InOrganization o payload.project_id payload.task_id) same (
          one_parent o payload.project_id payload.task_id e one
            (project.0 ∙ unnegated known_project project.1) (task.0 ∙ unnegated known_task task.1));
    }

-- the attachment of an answer is stored, under the key that the answer gives
abbrev pub Stored : Storage → ℕ → PresignUploadRequest → PresignUploadResponse → Database → Type 0
Stored storage o payload r d =
    (a : Attachment) × (find_attachment o r.attachment_id d ≡ some a)
    × (a.object_key ≡ r.object_key)
    × (r.upload_url ≡ storage.presign_put r.object_key payload.content_type)

find_inserted :
    (o : ℕ) (a : Attachment) (d : Database)
    → a.organization_id ≡ o
    → attachment_fits d a ≡ true
    → find_attachment o a.id (insert_attachment a d) ≡ some a
unfolding attachment_fits find_attachment
find_inserted o a d mine fits =
    let q = λ (x : Attachment). x.id == a.id && x.organization_id == o in
    scalar-append_none q d.attachments _
      (scalar_fresh q (attachment_clash a) d.attachments (λ x h. ground arith) (ground arith))
    ∙ scalar_own q a (ground arith)

module _ ⦃p : Platform⦄ (storage : Storage) (o : ℕ) (payload : PresignUploadRequest)
    (d : Database) where
  store_upload_lem :
      (user : User)
      → valid_request payload ≡ true
      → Triple
          (λ w. w.db ≡ d)
          (store_upload storage o user payload)
          (λ r w. Stored storage o payload r w.db × IsUploadable o payload d)
  unfolding store_upload
  store_upload_lem user valid =
      let P = λ (e : Database). IsUploadable o payload d in
      Triple-bind _ _ (Triple-lift (λ w. w.db ≡ d) _) λ u.
        Triple-bind _ _ (Triple-gets _ (project_known o payload.project_id)) λ known_project.
          Triple-bind _ _ (Triple-raise_if _ _ _) λ _.
            Triple-bind _ _ (Triple-gets _ (task_known o payload.task_id)) λ known_task.
              Triple-bind _ _ (Triple-raise_if _ _ _) λ _.
                Triple-bind _ _
                  (Triple-weaken
                    (λ w h.
                      uploadable o payload d w.db u known_project known_task valid
                        ((((h.0).0).0).0).0 ((((h.0).0).0).0).1 ((((h.0).0).0).1, ((h.0).0).1)
                        ((h.0).1, h.1))
                    (Keeps-new_uuid P))
                  λ object_id. Triple-bind _ _ (Keeps-now P) λ created_at.
                    Triple-bind _ _ (Keeps-new_uuid P) λ id.
                      let a : Attachment = record {
                        id = id;
                        created_at = created_at;
                        organization_id = o;
                        project_id = payload.project_id;
                        task_id = payload.task_id;
                        object_key = storage.object_key o payload.filename object_id;
                        original_filename = payload.filename;
                        content_type = payload.content_type;
                        size_bytes = payload.size_bytes;
                        created_by = user.id;
                      } in
                      Triple-bind
                        {Q = λ _ w. (find_attachment o id w.db ≡ some a) × IsUploadable o payload d}
                        _ _ (Triple-flush _ _ (λ w h fits. (find_inserted o a w.db refl fits, h)))
                        λ _. Triple-pure _ (λ w h. ((a, h.0, refl, refl), h.1))

  -- the endpoint, whose permission is asked for first
  create_upload_lem :
      (token : String)
      → Triple
          (λ w. w.db ≡ d)
          (create_upload storage o payload token)
          (λ r w. Stored storage o payload r w.db × IsUploadable o payload d)
  unfolding create_upload
  create_upload_lem token =
      Triple-bind _ _ (require_permission-Keeps (λ e. e ≡ d) project_write o token) λ c.
        Triple-bind _ _ (Triple-raise_if _ _ _)
          λ _. record { at = λ w h. (store_upload_lem c.user (unnegated _ h.1)).at w h.0 }

module _ ⦃p : Platform⦄ where
  -- An upload that was answered is of an allowed type, not empty and no larger than 20 MiB, for exactly
  -- one parent, a project or a task of the organization, and answers the URL to put its object under its
  -- key; and a later download of it in the organization by a caller with the permission answers the
  -- URL to get the object of the same key, as long as the attachments are as the upload left them.
  pub uploaded_lem :
      (storage : Storage) (o : ℕ) (payload : PresignUploadRequest) (token new : String)
      (w v next next1 : World) (c : OrganizationContext) (r : PresignUploadResponse)
      → request (create_upload storage o payload token) w ≡ (ok r, v)
      → require_permission project_read o new next ≡ (ok c, next1)
      → next.db.attachments ≡ v.db.attachments
      → IsUploadable o payload w.db
        × (r.upload_url ≡ storage.presign_put r.object_key payload.content_type)
        × ((request (get_download storage o r.attachment_id new) next).0
            ≡ ok (storage.presign_get r.object_key))
  unfolding get_download find_attachment request ◌>>=◌
  uploaded_lem storage o payload token new w v next next1 c r ran permitted same =
      let ((a, found, key, url), fit) =
        Triple-run (create_upload_lem storage o payload w.db token) w v r refl
          (request_returns (create_upload storage o payload token) w v r ran) in
      let kept = require_permission-db project_read o new next next1 c permitted in
      let rows = ap (λ d. d.attachments) kept ∙ same in
      let there =
        subst
          (λ rs.
            scalar (λ (x : Attachment). x.id == r.attachment_id && x.organization_id == o) rs
            ≡ some a)
          (sym rows) found in
      (fit, url, rw permitted (rw there (rw key refl)))
