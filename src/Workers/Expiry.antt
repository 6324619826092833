-- ===== src/Workers/Expiry.antt =====
-- app/workers/tasks.py: what the clean-up leaves.
use tenantflow_api.Prelude.{
  ◌≡◌, refl, Bool, not, List, [], ◌∷◌, arith, ltb, ℕ, map, if◌then◌else◌, select, delete, update,
}
use tenantflow_api.Core.Errors.{ok}
use tenantflow_api.Db.Models.{IdempotencyRecord, RefreshToken, InvitationStatus, Invitation}
use tenantflow_api.Db.Session.{Platform, World, request, ◌>>=◌}
use tenantflow_api.Workers.Maintenance.{
  is_overdue, expire_invitation, cleanup_at, cleanup_expired_state,
}

module _ {A : Type 0} (p : A → Bool) where
  deleted : (xs : List A) → delete p xs ≡ select (λ x. not (p x)) xs
  unfolding delete select
  deleted [] = refl
  deleted (x ∷ xs) = ground (arith, deleted xs)

-- what becomes of an invitation at a time
abbrev pub expires : ℕ → Invitation → Invitation
expires instant i = elim i.status [
  | InvitationStatus.pending ↦
      if ltb i.expires_at instant then record i { status = InvitationStatus.expired } else i
  | _ ↦ i
]

expires_lem :
    (instant : ℕ) (is : List Invitation)
    → update (is_overdue instant) expire_invitation is ≡ map (expires instant) is
unfolding update
expires_lem instant [] = refl
expires_lem instant (i ∷ is) = ground (arith, expires_lem instant is)

-- The clean-up returns. It leaves exactly the idempotency records and refresh tokens that have not run
-- out at its time, in their order; and every invitation as it was, except that a pending one that has
-- run out is expired.
pub cleanup_lem :
    ⦃p : Platform⦄
    → (w : World)
    → let instant = p.clock w.ticks in
      let (r, v) = request cleanup_expired_state w in
      (r ≡ ok tt)
      × (v.db.idempotency_records
          ≡ select (λ x. not (ltb x.expires_at instant)) w.db.idempotency_records)
      × (v.db.refresh_tokens ≡ select (λ x. not (ltb x.expires_at instant)) w.db.refresh_tokens)
      × (v.db.invitations ≡ map (expires instant) w.db.invitations)
unfolding request cleanup_expired_state cleanup_at ◌>>=◌
cleanup_lem ⦃p⦄ w =
    let instant = p.clock w.ticks in
    (
      refl,
      deleted (λ (x : IdempotencyRecord). ltb x.expires_at instant) w.db.idempotency_records,
      deleted (λ (x : RefreshToken). ltb x.expires_at instant) w.db.refresh_tokens,
      expires_lem instant w.db.invitations,
    )
