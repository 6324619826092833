-- ===== src/Files/Keys.antt =====
-- app/integrations/storage.py: `build_object_key` and the presigned URLs. str.lower is the platform's;
-- the text of a UUID and str.isalnum of one character are the record `Spelling`, and boto3 with the
-- settings of the bucket the record `S3`.
use tenantflow_api.Files.Router.{Storage}
use Prim.Native.Char.{code}
use Prim.Native.String.{◌++◌ as str_append, count}
use tenantflow_api.Prelude.{
  ℕ, String, Bool, true, not, ◌&&◌, Option, none, some, ltb, ◌==◌, str_eq, if◌then◌else◌,
}
use tenantflow_api.Db.Session.{Platform}

pub record Spelling : Type 0 where
  pub uuid_text : ℕ → String
  pub is_alnum : ℕ → Bool

-- filename.rsplit(".", 1)[-1] if "." in filename, or `none`
abbrev pub later_or : Option String → String → Option String
later_or (some suffix) rest = some suffix
later_or none rest = some rest

unfoldable pub last_suffix : String → Option String
last_suffix String.[] = none
last_suffix (String.◌∷◌ c s) =
    let later = last_suffix s in if code c == b'.' then later_or later s else later

module _ (w : Spelling) where
  unfoldable pub all_alnum : String → Bool
  all_alnum String.[] = true
  all_alnum (String.◌∷◌ c s) = let rest = all_alnum s in w.is_alnum (code c) && rest

  -- str.isalnum is False for the empty text
  abbrev pub is_safe_suffix : String → Bool
  is_safe_suffix s = not (str_eq s "") && all_alnum s && not (ltb 10 (count s))

  abbrev pub safe_suffix : Option String → String
  safe_suffix none = "bin"
  safe_suffix (some suffix) = if is_safe_suffix suffix then suffix else "bin"

  abbrev pub lowered : ⦃p : Platform⦄ → Option String → Option String
  lowered none = none
  lowered ⦃p⦄ (some suffix) = some (p.lower suffix)

  -- the last argument is the uuid4() that the function draws
  unfoldable pub build_object_key : ⦃p : Platform⦄ → ℕ → String → ℕ → String
  unfolding last_suffix all_alnum
  build_object_key organization_id filename object_id = str_append "organizations/" (
      str_append (w.uuid_text organization_id) (
        str_append "/" (
          str_append (w.uuid_text object_id)
            (str_append "." (safe_suffix (lowered (last_suffix filename)))))))

-- the arguments of generate_presigned_url
pub record PresignParams : Type 0 where
  pub method : String
  pub bucket : String
  pub key : String
  pub content_type : Option String
  pub expires_seconds : ℕ

-- `generate` signs for the endpoint that the client is made with
pub record S3 : Type 0 where
  pub endpoint : String
  pub public_endpoint : Option String
  pub bucket : String
  pub generate_presigned_url : String → PresignParams → String

-- settings.minio_public_endpoint or settings.minio_endpoint
abbrev pub endpoint_of : Option String → String → String
endpoint_of none endpoint = endpoint
endpoint_of (some public) endpoint = if str_eq public "" then endpoint else public

unfoldable pub presign_put : S3 → String → String → String
presign_put c object_key content_type =
    c.generate_presigned_url (endpoint_of c.public_endpoint c.endpoint) (record {
      method = "put_object";
      bucket = c.bucket;
      key = object_key;
      content_type = some content_type;
      expires_seconds = 900;
    })

unfoldable pub presign_get : S3 → String → String
presign_get c object_key =
    c.generate_presigned_url (endpoint_of c.public_endpoint c.endpoint) (record {
      method = "get_object";
      bucket = c.bucket;
      key = object_key;
      content_type = none;
      expires_seconds = 900;
    })

-- the storage that the endpoints call
unfoldable pub s3_storage : ⦃p : Platform⦄ → Spelling → S3 → Storage
unfolding build_object_key presign_put presign_get
s3_storage w c = record {
  object_key = build_object_key w;
  presign_put = presign_put c;
  presign_get = presign_get c;
}
