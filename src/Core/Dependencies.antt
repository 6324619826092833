-- ===== src/Core/Dependencies.antt =====
-- app/core/dependencies.py: who the caller is, and what the caller may do in an organization.
use tenantflow_api.Prelude.{ℕ, ◌==◌, String, not, ◌&&◌, Option, scalar}
use tenantflow_api.Core.Errors.{authentication_error, not_found_error}
use tenantflow_api.Core.Permissions.{Permission, assert_permission}
use tenantflow_api.Core.Security.{decode_access_token}
use tenantflow_api.Db.Models.{Database, User, OrganizationMembership}
use tenantflow_api.Db.Session.{Platform, Action, pure, raise_if, or_raise, gets, lift, ◌>>=◌, ◌>>◌}

pub record OrganizationContext : Type 0 where
  pub user : User
  pub membership : OrganizationMembership

-- session.get(User, user_id)
unfoldable pub get_user : ℕ → Database → Option User
get_user k d = scalar (λ (u : User). u.id == k) d.users

-- the membership of a user in an organization
unfoldable pub find_membership : ℕ → ℕ → Database → Option OrganizationMembership
find_membership o u d =
    scalar (λ (m : OrganizationMembership). m.organization_id == o && m.user_id == u) d.memberships

module _ ⦃p : Platform⦄ where
  unfoldable pub get_current_user : String → Action User
  unfolding get_user decode_access_token
  get_current_user token = do
    user_id ← decode_access_token token
    found ← gets (get_user user_id)
    user ← or_raise found (authentication_error "User account is unavailable")
    raise_if (not user.is_active) (authentication_error "User account is unavailable")
    pure user

  unfoldable pub get_organization_context : ℕ → String → Action OrganizationContext
  unfolding find_membership get_current_user
  get_organization_context organization_id token = do
    user ← get_current_user token
    found ← gets (find_membership organization_id user.id)
    membership ←
        or_raise found (not_found_error "ORGANIZATION_NOT_FOUND" "Organization was not found")
    pure (record { user = user; membership = membership })

  unfoldable pub require_permission : Permission → ℕ → String → Action OrganizationContext
  unfolding get_organization_context assert_permission
  require_permission permission organization_id token = do
    context ← get_organization_context organization_id token
    lift (assert_permission context.membership.role permission)
    pure context
