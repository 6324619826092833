-- ===== src/Organizations/Acceptance.antt =====
-- app/modules/organizations/service.py: `accept_invitation`, once and after the expiry.
use tenantflow_api.Prelude.{
  ◌+◌, ◌≡◌, refl, ◌∙◌, ap, String, Bool, true, false, Option, none, some, arith, ⊤, ◌==◌, ==-refl,
  leb, str_eq, scalar, scalar-update, if◌then◌else◌,
}
use tenantflow_api.Core.Errors.{Error, ok, err, conflict_error}
use tenantflow_api.Core.Dependencies.{find_membership}
use tenantflow_api.Db.Models.{
  Database, User, OrganizationMembership, Invitation, InvitationStatus, is_pending,
}
use tenantflow_api.Db.Session.{Platform, World, request, pure, raise, write, ◌>>=◌, ◌>>◌}
use tenantflow_api.Db.Session.Triple.{
  Keeps, Triple, Triple-bind, Triple-pure, Triple-raise, Triple-gets, Triple-or_raise,
  Triple-raise_if, Triple-flush, Triple-write, Triple-weaken, Triple-run, Keeps-now, Keeps-new_uuid,
  request_returns,
}
use tenantflow_api.Audit.{insert_audit_log}
use tenantflow_api.Audit.Keeps.{record_audit-Keeps}
use tenantflow_api.Organizations.Service.{
  set_invitation_status, find_token, join, refuse_expired, accept_invitation,
}

abbrev pub invitation_expired : Error
invitation_expired = conflict_error "INVITATION_EXPIRED" "Invitation has expired"

abbrev pub invitation_not_active : Error
invitation_not_active = conflict_error "INVITATION_NOT_ACTIVE" "Invitation is no longer active"

abbrev has_token : String → Invitation → Bool
has_token h i = str_eq i.token_hash h

module _ ⦃p : Platform⦄ (user : User) (raw : String) where
  -- Accepting a pending invitation after its expiry is refused with a 409, and the database stays
  -- as it was: the status that the function writes is rolled back with the request.
  pub expired_unchanged :
      (i : Invitation) (w : World)
      → find_token (p.token_fingerprint raw) w.db ≡ some i
      → is_pending i.status ≡ true
      → leb i.expires_at (p.clock w.ticks) ≡ true
      → request (accept_invitation user raw) w
        ≡ (err invitation_expired, record w { ticks = w.ticks + 1 })
  unfolding request accept_invitation refuse_expired ◌>>=◌
  expired_unchanged i w found waiting late = rw found (ground arith)

  abbrev Found : Invitation → Database → Type 0
  Found i d = scalar (has_token (p.token_fingerprint raw)) d.invitations ≡ some i

  join-Found :
      (i : Invitation) (found : Option OrganizationMembership) → Keeps (Found i) (join i user found)
  unfolding join
  join-Found i (some m) = Triple-pure _ (λ w h. h)
  join-Found i none = Triple-bind _ _ (Keeps-now (Found i)) λ _.
      Triple-bind _ _ (Keeps-new_uuid (Found i))
        λ _. Triple-bind _ _ (Triple-flush _ _ (λ w h fits. h)) λ _. Triple-pure _ (λ w h. h)

  branch :
      (i : Invitation) (late : Bool)
      → Keeps (Found i) (
          if late
          then (write (set_invitation_status i.id InvitationStatus.expired)
              >> raise invitation_expired)
          else pure tt)
  branch i true = Triple-bind _ _ (Triple-write {Q = λ _ w. ⊤} _ (λ w h. tt)) λ _. Triple-raise _
  branch i false = Triple-pure _ (λ w h. h)

  expiry-Found : (i : Invitation) → Keeps (Found i) (refuse_expired i)
  unfolding refuse_expired
  expiry-Found i =
      Triple-bind _ _ (Keeps-now (Found i)) λ instant. branch i (leb i.expires_at instant)

  abbrev accepted : Invitation → Invitation
  accepted i = record i { status = InvitationStatus.accepted }

  -- the invitation of the token is no longer pending
  abbrev Spent : Database → Type 0
  Spent d = (i : Invitation) × Found i d × (is_pending i.status ≡ false)

  accept-Spent : Triple (λ w. ⊤) (accept_invitation user raw) (λ m w. Spent w.db)
  unfolding accept_invitation find_token insert_audit_log
  accept-Spent =
      Triple-bind _ _ (Triple-gets (λ w. ⊤) (find_token (p.token_fingerprint raw))) λ found.
        Triple-bind _ _ (Triple-or_raise _ found _) λ i.
          Triple-bind _ _ (Triple-raise_if _ _ _) λ _.
            Triple-bind _ _ (Triple-weaken (λ w h. ((h.0).0).1 ∙ (h.0).1) (expiry-Found i)) λ _.
              Triple-bind _ _ (Triple-raise_if _ _ _) λ _.
                Triple-bind _ _ (Triple-gets _ (find_membership i.organization_id user.id))
                  λ existing.
                    Triple-bind _ _ (Triple-weaken (λ w h. (h.0).0) (join-Found i existing)) λ m.
                      Triple-bind _ _
                        (Triple-write {Q = λ _ w. Spent w.db} _ (λ w h. (
                          accepted i,
                          scalar-update (has_token (p.token_fingerprint raw)) (λ x. x.id == i.id)
                                accepted w.db.invitations i (λ y. refl) h
                              ∙ ap (λ b. some (if b then accepted i else i)) (==-refl i.id),
                          refl,
                        )))
                        λ _.
                          Triple-bind _ _
                            (record_audit-Keeps Spent i.organization_id (λ d r e h. h) _ _ _ _ _)
                            λ _. Triple-pure _ (λ w h. h)

  refused :
      (i : Invitation) (w : World)
      → Found i w.db
      → is_pending i.status ≡ false
      → accept_invitation user raw w ≡ (err invitation_not_active, w)
  unfolding accept_invitation find_token ◌>>=◌
  refused i w found spent = rw found (rw spent refl)

  -- After an invitation was accepted, accepting it again is refused with a 409 and changes nothing,
  -- as long as the invitations are as the first call left them.
  pub accepted_once :
      (m : OrganizationMembership) (w v later : World)
      → request (accept_invitation user raw) w ≡ (ok m, v)
      → later.db.invitations ≡ v.db.invitations
      → accept_invitation user raw later ≡ (err invitation_not_active, later)
  unfolding find_token
  accepted_once m w v later e same =
      let (i, found, spent) =
        Triple-run accept-Spent w v m tt (request_returns (accept_invitation user raw) w v m e) in
      refused i later (ap (scalar (has_token (p.token_fingerprint raw))) same ∙ found) spent
