-- ===== src/Examples/Keys.antt =====
-- Uploads and the keys of their objects at work: the text of a UUID is a numeral in strokes.
use tenantflow_api.Prelude.{
  ℕ, suc, zero, ◌≡◌, ◌≢◌, refl, some, [], ap, sym, ◌∙◌, String, Bool, length, arith, ◌&&◌, ◌||◌,
  leb, none, ◌∷◌,
}
use tenantflow_api.Core.Texts.{Lacks, chars}
use tenantflow_api.Files.Keys.{Spelling, S3, build_object_key, presign_put, presign_get, s3_storage}
use tenantflow_api.Files.Router.{
  Storage, PresignUploadRequest, PresignUploadResponse, create_upload, get_download,
}
use tenantflow_api.Files.Uploads.{IsUploadable, uploaded_lem}
use tenantflow_api.Core.Errors.{ok}
use tenantflow_api.Core.Dependencies.{OrganizationContext}
use tenantflow_api.Db.Models.{Database, Project, ProjectStatus}
use tenantflow_api.Db.Session.{World, request}
use Prim.Native.String.{◌++◌ as str_append}
use tenantflow_api.Files.Apart.{IsSpelling, keys_apart}
use tenantflow_api.Examples.World.{demo, db, alice, owner_of_acme, at}

unfoldable strokes : ℕ → String
strokes zero = ""
strokes (suc n) = String.◌∷◌ "1" (strokes n)

strokes-Lacks : (n : ℕ) → Lacks b'/' (chars (strokes n))
unfolding strokes chars
strokes-Lacks zero = tt
strokes-Lacks (suc n) = (refl, strokes-Lacks n)

length-strokes : (n : ℕ) → length (chars (strokes n)) ≡ n
unfolding strokes chars
length-strokes zero = refl
length-strokes (suc n) = ap suc (length-strokes n)

-- letters and digits of ASCII
abbrev is_alnum : ℕ → Bool
is_alnum c = (leb 48 c && leb c 57) || (leb 97 c && leb c 122)

abbrev spelling : Spelling
spelling = record { uuid_text = strokes; is_alnum = is_alnum }

abbrev laws : IsSpelling spelling
laws = record {
  plain = strokes-Lacks;
  distinct = λ j k same. sym (length-strokes j) ∙ ap length same ∙ length-strokes k;
  slash = refl;
}

built : build_object_key spelling ⦃p = demo⦄ 2 "plan.tar.gz" 3 ≡ "organizations/11/111.gz"
unfolding build_object_key strokes
built = refl

keys_apart_example :
    build_object_key spelling ⦃p = demo⦄ 2 "a.pdf" 3 ≢ build_object_key spelling ⦃p = demo⦄ 1 "b" 4
keys_apart_example = keys_apart ⦃p = demo⦄ spelling laws 2 1 "a.pdf" "b" 3 4 (omega arith)

-- boto3 signs a URL
abbrev s3 : S3
s3 = record {
  endpoint = "http://minio:9000";
  public_endpoint = some "https://files.example";
  bucket = "b";
  generate_presigned_url = λ endpoint q. str_append endpoint (str_append "/" q.key);
}

abbrev project : Project
project = record {
  id = 30;
  created_at = 0;
  organization_id = 10;
  name = "Apollo";
  description = none;
  status = ProjectStatus.active;
  created_by = 1;
}

abbrev upload : PresignUploadRequest
upload = record {
  filename = "Plan.PDF";
  content_type = "application/pdf";
  size_bytes = 5000;
  project_id = some 30;
  task_id = none;
}

abbrev with_project : Database
with_project = record db { projects = project ∷ [] }

abbrev storage : Storage
storage = s3_storage ⦃p = demo⦄ spelling s3

abbrev after : World
after = (request (create_upload ⦃p = demo⦄ storage 10 upload "alice") (at 0 with_project)).1

abbrev context : OrganizationContext
context = record { user = alice; membership = owner_of_acme }

abbrev key : String
key = build_object_key spelling ⦃p = demo⦄ 10 "Plan.PDF" 101

abbrev answered : PresignUploadResponse
answered = record {
  attachment_id = 103;
  object_key = key;
  upload_url = presign_put s3 key "application/pdf";
}

uploaded_lem_example :
    IsUploadable 10 upload with_project
    × (answered.upload_url ≡ presign_put s3 key "application/pdf")
    × ((request (get_download ⦃p = demo⦄ storage 10 103 "alice") (at 9 after.db)).0
        ≡ ok (presign_get s3 key))
unfolding request create_upload tenantflow_api.Db.Session.◌>>=◌ tenantflow_api.Prelude.scalar
    tenantflow_api.Core.Permissions.has_permission tenantflow_api.Db.Constraints.attachment_fits
    tenantflow_api.Prelude.exists build_object_key s3_storage presign_put
uploaded_lem_example =
    uploaded_lem ⦃p = demo⦄ storage 10 upload "alice" "alice" (at 0 with_project) after
      (at 9 after.db) (at 10 after.db) context answered refl refl refl
