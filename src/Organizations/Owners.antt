-- ===== src/Organizations/Owners.antt =====
-- app/modules/organizations: the owners of the organizations under the endpoints on members.
use tenantflow_api.Prelude.{
  ℕ, ◌≡◌, refl, ◌∙◌, String, true, false, some, List, arith, All, ◌==◌, ◌&&◌, select, Unique,
  Unique-update, Unique-delete, All-found, select-update, select-delete,
}
use tenantflow_api.Core.Permissions.{Role, is_owner}
use tenantflow_api.Core.Dependencies.{get_user}
use tenantflow_api.Db.Models.{Database, OrganizationMembership, User}
use tenantflow_api.Db.Session.{Platform, World, request}
use tenantflow_api.Db.Session.Triple.{
  Keeps, Triple-bind, Triple-pure, Triple-gets, Triple-or_raise, Triple-raise_if, Triple-write,
  Triple-weaken, request-Keeps,
}
use tenantflow_api.Access.{require_permission-Keeps}
use tenantflow_api.Audit.{insert_audit_log}
use tenantflow_api.Audit.Keeps.{record_audit-Keeps}
use tenantflow_api.Organizations.Schemas.{assignable_role}
use tenantflow_api.Organizations.Service.{find_member, update_membership_role, remove_membership}
use tenantflow_api.Organizations.Router.{change_member_role, delete_member}

-- the memberships with the role of an owner, over all organizations
abbrev pub owners : List OrganizationMembership → List OrganizationMembership
owners ms = select (λ m. is_owner m.role) ms

abbrev key : OrganizationMembership → ℕ
key m = m.id

-- the owners are those of `a`, and the memberships have unique ids
abbrev pub KeepsOwners : List OrganizationMembership → List OrganizationMembership → Type 0
KeepsOwners a ms = (owners ms ≡ owners a) × Unique key ms

abbrev NoOwner : ℕ → List OrganizationMembership → Type 0
NoOwner k ms = All (λ (m : OrganizationMembership). (m.id == k) ≡ true → is_owner m.role ≡ false) ms

no_owner :
    (o k : ℕ) (d : Database) (m : OrganizationMembership)
    → Unique key d.memberships
    → find_member o k d ≡ some m
    → is_owner m.role ≡ false
    → NoOwner m.id d.memberships
unfolding find_member
no_owner o k d m u e h =
    All-found key (λ x. is_owner x.role ≡ false)
      (λ (x : OrganizationMembership). x.id == k && x.organization_id == o) d.memberships m u e h

no_owner_role : (role : String) (r : Role) → assignable_role role ≡ some r → is_owner r ≡ false
unfolding assignable_role
no_owner_role role r e = ground arith

module _ ⦃p : Platform⦄ (a : List OrganizationMembership) where
  abbrev Owns : Database → Type 0
  Owns d = KeepsOwners a d.memberships

  update-Owns :
      (o k : ℕ) (actor : User) (r : Role)
      → is_owner r ≡ false
      → Keeps Owns (update_membership_role o k actor r)
  unfolding update_membership_role insert_audit_log
  update-Owns o k actor r plain = Triple-bind _ _ (Triple-gets _ (find_member o k)) λ found.
      Triple-bind _ _ (Triple-or_raise _ found _) λ m. Triple-bind _ _ (Triple-raise_if _ _ _) λ _.
        Triple-bind _ _
          (Triple-write _ (λ w h.
            let gone = no_owner o k w.db m (((h.0).0).0).1 (((h.0).0).1 ∙ (h.0).1) h.1 in
            (
              select-update (λ x. is_owner x.role) (λ x. x.id == m.id) (λ x. record x { role = r })
                    (λ x. plain) (w.db).memberships gone
                  ∙ (((h.0).0).0).0,
              Unique-update key (λ x. x.id == m.id) (λ x. record x { role = r }) (λ x. refl)
                  (w.db).memberships (((h.0).0).0).1,
            )))
          λ _.
            Triple-bind _ _ (record_audit-Keeps Owns o (λ d x e h. h) _ _ _ _ _)
              λ _. Triple-pure _ (λ w h. h)

  remove-Owns : (o k : ℕ) (actor : User) → Keeps Owns (remove_membership o k actor)
  unfolding remove_membership insert_audit_log
  remove-Owns o k actor = Triple-bind _ _ (Triple-gets _ (find_member o k)) λ found.
      Triple-bind _ _ (Triple-or_raise _ found _) λ m. Triple-bind _ _ (Triple-raise_if _ _ _) λ _.
        Triple-bind _ _
          (Triple-weaken
            (λ w h. (((h.0).0).0, no_owner o k w.db m (((h.0).0).0).1 (((h.0).0).1 ∙ (h.0).1) h.1))
            (record_audit-Keeps (λ d. Owns d × NoOwner m.id d.memberships) o (λ d x e h. h) _ _ _ _
              _))
          λ _. Triple-write _ λ w h. (
            select-delete (λ x. is_owner x.role) (λ x. x.id == m.id) (w.db).memberships h.1
                ∙ (h.0).0,
            Unique-delete key (λ x. x.id == m.id) (w.db).memberships (h.0).1,
          )

-- Changing the role of a member and removing a member leave the owners of every organization as
-- they are, if the ids of the memberships are unique: no owner is demoted or removed, and nobody is
-- made an owner.
pub owners_stay :
    ⦃p : Platform⦄
    → (o k : ℕ) (token role : String) (w : World) → Unique key w.db.memberships
    → KeepsOwners w.db.memberships (request (change_member_role o k token role) w).1.db.memberships
      × KeepsOwners w.db.memberships (request (delete_member o k token) w).1.db.memberships
unfolding change_member_role delete_member
owners_stay o k token role w u =
    let P = Owns w.db.memberships in
    (
      request-Keeps P _
          (Triple-bind _ _ (require_permission-Keeps P _ o token) λ c.
            Triple-bind _ _ (Triple-or_raise _ _ _) λ r.
              Triple-bind _ _
                (record {
                  at = λ x h.
                      (update-Owns w.db.memberships o k c.user r (no_owner_role role r h.1)).at x
                        h.0;
                })
                λ m. Triple-bind _ _ (Triple-gets _ (get_user m.user_id)) λ found.
                  Triple-bind _ _ (Triple-or_raise _ found _) λ u. Triple-pure _ (λ w h. (h.0).0))
          w (refl, u),
      request-Keeps P _
          (Triple-bind _ _ (require_permission-Keeps P _ o token)
            λ c. remove-Owns w.db.memberships o k c.user)
          w (refl, u),
    )
