-- ===== src/Files/Router.antt =====
-- app/modules/files/router.py and schemas.py, with `validate_upload` of
-- app/integrations/storage.py.
use tenantflow_api.Prelude.{
  ℕ, ◌*◌, ◌==◌, String, Bool, true, not, ◌&&◌, ◌||◌, Option, none, some, [], ◌∷◌, ◌++◌, str_eq, ltb,
  present, scalar, if◌then◌else◌, ⊤,
}
use tenantflow_api.Core.Errors.{Error, Result, ok, err, not_found_error}
use tenantflow_api.Core.Permissions.{project_read, project_write}
use tenantflow_api.Core.Dependencies.{require_permission}
use tenantflow_api.Db.Models.{Database, User, Attachment}
use tenantflow_api.Db.Constraints.{attachment_fits}
use tenantflow_api.Db.Session.{
  Platform, Action, pure, raise_if, or_raise, lift, gets, flush, now, new_uuid, ◌>>=◌, ◌>>◌,
}
use tenantflow_api.Projects.Service.{find_project}
use tenantflow_api.Tasks.Service.{find_task}

-- `build_object_key` with the uuid that it draws, `presign_put` and `presign_get`
pub record Storage : Type 0 where
  pub object_key : ℕ → String → ℕ → String
  pub presign_put : String → String → String
  pub presign_get : String → String

abbrev pub max_file_size : ℕ
max_file_size = 20 * 1024 * 1024

abbrev pub allowed_content_type : String → Bool
allowed_content_type t =
    str_eq t "application/pdf"
    || str_eq t "image/jpeg"
    || str_eq t "image/png"
    || str_eq t "text/plain"
    || str_eq t "text/csv"

unfoldable pub validate_upload : String → ℕ → Result ⊤
validate_upload content_type size_bytes =
    if not (allowed_content_type content_type)
    then err (Error.value_error "Unsupported content type")
    else if size_bytes == 0 || ltb max_file_size size_bytes
    then err (Error.value_error "File size is outside the allowed range")
    else ok tt

pub record PresignUploadRequest : Type 0 where
  pub filename : String
  pub content_type : String
  pub size_bytes : ℕ
  pub project_id : Option ℕ
  pub task_id : Option ℕ

pub record PresignUploadResponse : Type 0 where
  pub attachment_id : ℕ
  pub object_key : String
  pub upload_url : String

-- the validator `require_exactly_one_parent`, and Field(gt=0)
unfoldable pub valid_request : PresignUploadRequest → Bool
valid_request r =
    ltb 0 r.size_bytes
    && ((present r.project_id && not (present r.task_id))
        || (not (present r.project_id) && present r.task_id))

abbrev pub insert_attachment : Attachment → Database → Database
insert_attachment r d = record d { attachments = d.attachments ++ r ∷ [] }

-- `except ValueError as exc: raise HTTPException(422)`
abbrev pub as_unprocessable : Result ⊤ → Result ⊤
as_unprocessable (ok u) = ok u
as_unprocessable (err (Error.value_error detail)) = err (Error.http 422 detail none)
as_unprocessable (err e) = err e

-- the parent that the request names is one of the organization
unfoldable pub project_known : ℕ → Option ℕ → Database → Bool
unfolding find_project
project_known o none d = true
project_known o (some k) d = present (find_project o k d)

unfoldable pub task_known : ℕ → Option ℕ → Database → Bool
unfolding find_task
task_known o none d = true
task_known o (some k) d = present (find_task o k d)

unfoldable pub find_attachment : ℕ → ℕ → Database → Option Attachment
find_attachment o k d =
    scalar (λ (a : Attachment). a.id == k && a.organization_id == o) d.attachments

module _ ⦃p : Platform⦄ (storage : Storage) where
  unfoldable pub store_upload : ℕ → User → PresignUploadRequest → Action PresignUploadResponse
  unfolding validate_upload project_known task_known
  store_upload organization_id user payload = do
    lift (as_unprocessable (validate_upload payload.content_type payload.size_bytes))
    known_project ← gets (project_known organization_id payload.project_id)
    raise_if (not known_project) (not_found_error "PROJECT_NOT_FOUND" "Project was not found")
    known_task ← gets (task_known organization_id payload.task_id)
    raise_if (not known_task) (not_found_error "TASK_NOT_FOUND" "Task was not found")
    object_id ← new_uuid
    created_at ← now
    id ← new_uuid
    let attachment : Attachment = record {
      id = id;
      created_at = created_at;
      organization_id = organization_id;
      project_id = payload.project_id;
      task_id = payload.task_id;
      object_key = storage.object_key organization_id payload.filename object_id;
      original_filename = payload.filename;
      content_type = payload.content_type;
      size_bytes = payload.size_bytes;
      created_by = user.id;
    }
    flush (λ d. attachment_fits d attachment) (insert_attachment attachment)
    pure (record {
      attachment_id = id;
      object_key = attachment.object_key;
      upload_url = storage.presign_put attachment.object_key payload.content_type;
    })

  unfoldable pub create_upload : ℕ → PresignUploadRequest → String → Action PresignUploadResponse
  unfolding store_upload require_permission valid_request
  create_upload organization_id payload token = do
    context ← require_permission project_write organization_id token
    raise_if (not (valid_request payload)) Error.validation
    store_upload organization_id context.user payload

  unfoldable pub get_download : ℕ → ℕ → String → Action String
  unfolding find_attachment require_permission
  get_download organization_id attachment_id token = do
    require_permission project_read organization_id token
    found ← gets (find_attachment organization_id attachment_id)
    attachment ← or_raise found (not_found_error "ATTACHMENT_NOT_FOUND" "Attachment was not found")
    pure (storage.presign_get attachment.object_key)
