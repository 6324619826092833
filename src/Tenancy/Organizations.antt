-- ===== src/Tenancy/Organizations.antt =====
-- Tenant isolation of app/modules/organizations/service.py: its functions.
use tenantflow_api.Prelude.{ℕ, ◌≡◌, refl, ◌∙◌, String, Option, none, some}
use tenantflow_api.Core.Permissions.{Role}
use tenantflow_api.Db.Models.{Database, User, Invitation}
use tenantflow_api.Db.Session.{Platform, World}
use tenantflow_api.Db.Session.Triple.{
  Keeps, Triple, Triple-bind, Triple-pure, Triple-gets, Triple-or_raise, Triple-raise_if,
  Triple-flush, Triple-write, Triple-weaken, Keeps-now, Keeps-new_uuid, Keeps-new_token,
  Keeps-publish,
}
use tenantflow_api.Audit.{insert_audit_log}
use tenantflow_api.Audit.Keeps.{record_audit-Keeps}
use tenantflow_api.Organizations.Service.{
  find_email, find_pending, find_member, already_member, clear_pending, invite_member,
  update_membership_role, remove_membership,
}
use tenantflow_api.Tenancy.{Within, audit-Within, Within-insert_audit_log}
use tenantflow_api.Tenancy.Members.{
  MembershipOwned, member_owned, pending_owned, Within-set_status, Within-set_role,
  Within-delete_membership, Within-insert_invitation,
}

module _ ⦃p : Platform⦄ (o : ℕ) (a : Database) where
  abbrev Pending : String → Option Invitation → World → Type 0
  Pending email i w = Within o a w.db × (find_pending o email w.db ≡ i)

  clear_pending-Within :
      (email : String) (pending : Option Invitation)
      → Triple (Pending email pending) (clear_pending pending) (λ _ w. Within o a w.db)
  unfolding clear_pending
  clear_pending-Within email none = Triple-pure _ (λ w h. h.0)
  clear_pending-Within email (some i) =
      Triple-bind _ _ (Keeps-now (λ d. Within o a d × (find_pending o email d ≡ some i))) λ _.
        Triple-bind _ _ (Triple-raise_if _ _ _) λ _. Triple-write _ (λ w h.
          Within-set_status o i.id a w.db _ (pending_owned o email w.db i ((h.0).0).1 (h.0).1)
            (h.0).0)

  pub invite_member-Within :
      (invited_by : User) (email : String) (role : Role)
      → Keeps (Within o a) (invite_member o invited_by email role)
  unfolding invite_member
  invite_member-Within invited_by email role =
      Triple-bind _ _ (Triple-gets _ (find_email (p.lower email))) λ existing.
        Triple-bind _ _ (Triple-gets _ (already_member o existing)) λ belongs.
          Triple-bind _ _ (Triple-raise_if _ belongs _) λ _.
            Triple-bind _ _ (Triple-gets _ (find_pending o (p.lower email))) λ pending.
              Triple-bind _ _
                (Triple-weaken (λ w h. ((((h.0).0).0).0, h.1))
                  (clear_pending-Within (p.lower email) pending))
                λ _. Triple-bind _ _ (Keeps-new_token (Within o a)) λ raw_token.
                  Triple-bind _ _ (Keeps-now (Within o a)) λ instant.
                    Triple-bind _ _ (Keeps-now (Within o a)) λ created_at.
                      Triple-bind _ _ (Keeps-new_uuid (Within o a)) λ id.
                        Triple-bind _ _
                          (Triple-flush _ _
                            (λ w h fits. Within-insert_invitation o a w.db _ refl fits h))
                          λ _. Triple-bind _ _ (audit-Within o a _ _ _ _ _) λ _.
                            Triple-bind _ _ (Keeps-publish (Within o a) _)
                              λ _. Triple-pure _ (λ w h. h)

  pub update_membership_role-Within :
      (membership_id : ℕ) (actor : User) (role : Role)
      → Keeps (Within o a) (update_membership_role o membership_id actor role)
  unfolding update_membership_role
  update_membership_role-Within membership_id actor role =
      Triple-bind _ _ (Triple-gets _ (find_member o membership_id)) λ found.
        Triple-bind _ _ (Triple-or_raise _ found _) λ m.
          Triple-bind _ _ (Triple-raise_if _ _ _) λ _.
            Triple-bind _ _
              (Triple-write _ (λ w h.
                Within-set_role o m.id a w.db role
                  (member_owned o membership_id w.db m (((h.0).0).0).1 (((h.0).0).1 ∙ (h.0).1))
                  ((h.0).0).0))
              λ _. Triple-bind _ _ (audit-Within o a _ _ _ _ _) λ _. Triple-pure _ (λ w h. h)

  -- the membership is still the organization's after the audit row
  abbrev Owned : ℕ → Database → Type 0
  Owned k d = Within o a d × MembershipOwned o k d

  pub remove_membership-Within :
      (membership_id : ℕ) (actor : User)
      → Keeps (Within o a) (remove_membership o membership_id actor)
  unfolding remove_membership insert_audit_log
  remove_membership-Within membership_id actor =
      Triple-bind _ _ (Triple-gets _ (find_member o membership_id)) λ found.
        Triple-bind _ _ (Triple-or_raise _ found _) λ m.
          Triple-bind _ _ (Triple-raise_if _ _ _) λ _.
            Triple-bind _ _
              (Triple-weaken
                (λ w h. (
                  ((h.0).0).0,
                  member_owned o membership_id w.db m (((h.0).0).0).1 (((h.0).0).1 ∙ (h.0).1),
                ))
                (record_audit-Keeps (Owned m.id) o
                  (λ d r e h. (Within-insert_audit_log o a d r e h.0, h.1)) _ _ _ _ _))
              λ _. Triple-write _ (λ w h. Within-delete_membership o m.id a w.db h.1 h.0)
