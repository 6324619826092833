-- ===== src/Core/Permissions.antt =====
-- app/core/permissions.py.
use tenantflow_api.Prelude.{Bool, true, false, if◌then◌else◌, ⊤}
use tenantflow_api.Core.Errors.{Result, ok, err, forbidden_error}

pub data Role : Type 0 where
  owner admin member viewer : Role

pub data Permission : Type 0 where
  org_manage members_manage billing_manage project_read project_write : Permission
  project_delete webhook_manage audit_read : Permission

-- `ROLE_PERMISSIONS` and the membership test of `has_permission`
unfoldable pub has_permission : Role → Permission → Bool
has_permission owner _ = true
has_permission admin members_manage = true
has_permission admin project_read = true
has_permission admin project_write = true
has_permission admin project_delete = true
has_permission admin webhook_manage = true
has_permission admin audit_read = true
has_permission member project_read = true
has_permission member project_write = true
has_permission viewer project_read = true
has_permission _ _ = false

unfoldable pub assert_permission : Role → Permission → Result ⊤
assert_permission role permission =
    if has_permission role permission
    then ok tt
    else err (forbidden_error "FORBIDDEN" "The role lacks the permission")

abbrev pub same_role : Role → Role → Bool
same_role owner owner = true
same_role admin admin = true
same_role member member = true
same_role viewer viewer = true
same_role _ _ = false

abbrev pub is_owner : Role → Bool
is_owner owner = true
is_owner _ = false
