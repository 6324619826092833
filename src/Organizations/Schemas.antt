-- ===== src/Organizations/Schemas.antt =====
-- app/modules/organizations/schemas.py: the bodies of requests and responses, and their JSON.
-- An e-mail address is one that pydantic's EmailStr has accepted.
use Prim.Native.String.{count}
use tenantflow_api.Prelude.{
  ℕ, String, Bool, not, ◌&&◌, Option, none, some, leb, str_eq, if◌then◌else◌, ⊤,
}
use tenantflow_api.Core.Errors.{Error}
use tenantflow_api.Core.Permissions.{Role, owner, admin, member, viewer}
use tenantflow_api.Db.Json.{Fields, end, field, str, uuid, get_field, as_str, as_uuid}
use tenantflow_api.Db.Models.{InvitationStatus, pending, accepted, revoked, expired}
use tenantflow_api.Db.Session.{Action, raise_if}

pub record OrganizationCreate : Type 0 where
  pub name : String
  pub slug : String

pub record OrganizationResponse : Type 0 where
  pub id : ℕ
  pub name : String
  pub slug : String
  pub role : Role

pub record InviteMemberRequest : Type 0 where
  pub email : String
  pub role : String

pub record InvitationResponse : Type 0 where
  pub id : ℕ
  pub email : String
  pub role : Role
  pub status : InvitationStatus

pub record MembershipResponse : Type 0 where
  pub id : ℕ
  pub user_id : ℕ
  pub email : String
  pub full_name : String
  pub role : Role

abbrev pub role_text : Role → String
role_text owner = "owner"
role_text admin = "admin"
role_text member = "member"
role_text viewer = "viewer"

-- the words of the column `role`
unfoldable pub parse_role : String → Option Role
parse_role s =
    if str_eq s "owner"
    then some owner
    else if str_eq s "admin"
    then some admin
    else if str_eq s "member"
    then some member
    else if str_eq s "viewer"
    then some viewer
    else none

-- the pattern ^(admin|member|viewer)$ of a requested role
unfoldable pub assignable_role : String → Option Role
assignable_role s =
    if str_eq s "admin"
    then some admin
    else if str_eq s "member"
    then some member
    else if str_eq s "viewer"
    then some viewer
    else none

abbrev pub status_text : InvitationStatus → String
status_text pending = "pending"
status_text accepted = "accepted"
status_text revoked = "revoked"
status_text expired = "expired"

unfoldable pub parse_status : String → Option InvitationStatus
parse_status s =
    if str_eq s "pending"
    then some pending
    else if str_eq s "accepted"
    then some accepted
    else if str_eq s "revoked"
    then some revoked
    else if str_eq s "expired"
    then some expired
    else none

-- Header(min_length=8, max_length=160)
abbrev pub valid_key : String → Bool
valid_key key = leb 8 (count key) && leb (count key) 160

unfoldable pub validate_key : String → Action ⊤
validate_key key = raise_if (not (valid_key key)) Error.validation

-- payload.model_dump(mode="json"), response.model_dump(mode="json")
abbrev pub dump_create : OrganizationCreate → Fields
dump_create c = field "name" (str c.name) (field "slug" (str c.slug) end)

abbrev pub dump_organization : OrganizationResponse → Fields
dump_organization r = field "id" (uuid r.id) (
    field "name" (str r.name)
      (field "slug" (str r.slug) (field "role" (str (role_text r.role)) end)))

abbrev pub dump_invite : InviteMemberRequest → Fields
dump_invite i = field "email" (str i.email) (field "role" (str i.role) end)

abbrev pub dump_invitation : InvitationResponse → Fields
dump_invitation r = field "id" (uuid r.id) (
    field "email" (str r.email)
      (field "role" (str (role_text r.role)) (field "status" (str (status_text r.status)) end)))

abbrev bind {ℓ} : {A : Type 0} {B : Type ℓ} → Option A → (A → Option B) → Option B
bind none f = none
bind (some a) f = f a

-- OrganizationResponse.model_validate(body): its `role` is any text
unfoldable pub validate_organization : Fields → Option OrganizationResponse
unfolding get_field parse_role
validate_organization b = bind (as_uuid (get_field "id" b)) λ i.
    bind (as_str (get_field "name" b)) λ n. bind (as_str (get_field "slug" b)) λ s.
      bind (as_str (get_field "role" b))
        λ r. bind (parse_role r) λ q. some (record { id = i; name = n; slug = s; role = q })

-- InvitationResponse.model_validate(body)
unfoldable pub validate_invitation : Fields → Option InvitationResponse
unfolding get_field parse_role parse_status
validate_invitation b = bind (as_uuid (get_field "id" b)) λ i.
    bind (as_str (get_field "email" b)) λ e. bind (as_str (get_field "role" b)) λ r.
      bind (as_str (get_field "status" b)) λ s.
        bind (parse_role r)
          λ q. bind (parse_status s) λ t. some (record { id = i; email = e; role = q; status = t })
