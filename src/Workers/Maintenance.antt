-- ===== src/Workers/Maintenance.antt =====
-- app/workers/tasks.py: `cleanup_expired_state_task` and `send_invitation_task`.
use tenantflow_api.Prelude.{
  ℕ, String, Bool, ◌&&◌, not, Option, none, some, ltb, scalar, update, delete, ◌==◌, if◌then◌else◌,
  ⊤,
}
use tenantflow_api.Core.Errors.{Error}
use tenantflow_api.Db.Models.{
  Database, IdempotencyRecord, RefreshToken, Invitation, InvitationStatus, is_pending, Organization,
}
use tenantflow_api.Db.Session.{Platform, Action, pure, or_raise, gets, write, now, ◌>>=◌}

abbrev pub expire_invitation : Invitation → Invitation
expire_invitation i = record i { status = InvitationStatus.expired }

abbrev pub is_overdue : ℕ → Invitation → Bool
is_overdue instant i = is_pending i.status && ltb i.expires_at instant

-- the three statements of the job
unfoldable pub cleanup_at : ℕ → Database → Database
cleanup_at instant d = record d {
  idempotency_records =
      delete (λ (r : IdempotencyRecord). ltb r.expires_at instant) d.idempotency_records;
  refresh_tokens = delete (λ (t : RefreshToken). ltb t.expires_at instant) d.refresh_tokens;
  invitations = update (is_overdue instant) expire_invitation d.invitations;
}

pub data MailOutcome : Type 0 where
  success skipped : MailOutcome

unfoldable pub get_invitation : ℕ → Database → Option Invitation
get_invitation k d = scalar (λ (i : Invitation). i.id == k) d.invitations

unfoldable pub get_organization : ℕ → Database → Option Organization
get_organization k d = scalar (λ (o : Organization). o.id == k) d.organizations

module _ ⦃p : Platform⦄ where
  unfoldable pub cleanup_expired_state : Action ⊤
  unfolding cleanup_at
  cleanup_expired_state = do instant ← now; write (cleanup_at instant)

  -- the mail goes out in the branch `success`: its address and the organization's name
  unfoldable pub send_invitation : ℕ → Action (MailOutcome × Option (String × String))
  unfolding get_invitation get_organization
  send_invitation invitation_id = do
    found ← gets (get_invitation invitation_id)
    invitation ← or_raise found (Error.runtime_error "Invitation is not committed yet")
    if not (is_pending invitation.status) then pure (skipped, none) else (do
      organization ← gets (get_organization invitation.organization_id)
      pure (elim organization [
        | none ↦ (skipped, none)
        | some o ↦ (success, some (invitation.email, o.name))
      ]))
