-- ===== src/Tenancy/Records.antt =====
-- Tenant isolation of the idempotency records that app/modules/organizations/router.py writes for an
-- invitation.
use tenantflow_api.Prelude.{
  ℕ, ◌≡◌, refl, ap, ◌==◌, ==→eq, true, ◌&&◌, String, str_eq, Option, none, some, present, List, [],
  ◌∷◌, All, All-append, All-fresh, update, outside-append, outside-update, Unique-insert,
  Unique-update, arith, Option-cases, Bool-cases, inl, inr,
}
use tenantflow_api.Db.Models.{Database, User, Scope, IdempotencyRecord}
use tenantflow_api.Db.Json.{Fields}
use tenantflow_api.Db.Session.{Platform, World, pure, raise}
use tenantflow_api.Db.Session.Triple.{
  Triple, Triple-and, Triple-bind, Triple-pure, Triple-gets, Triple-or_raise, Triple-flush,
  Triple-write, Triple-weaken, Triple-after, Keeps-now, Keeps-new_uuid,
}
use tenantflow_api.Core.Paging.{All-map}
use tenantflow_api.Organizations.Reinvitation.{invite_member-Keeps}
use tenantflow_api.Infra.Idempotency.{
  IdempotencyState, insert_record, replay, find_record, claim, acquire_idempotency,
  complete_idempotency, record_fits, is_completed, complete_record,
}
use tenantflow_api.Organizations.Schemas.{InviteMemberRequest, validate_invitation}
use tenantflow_api.Organizations.Router.{invite_once}
use tenantflow_api.Organizations.Service.{invite_member}
use tenantflow_api.Tenancy.{Within, tenant_of}
use tenantflow_api.Tenancy.Organizations.{invite_member-Within}

module _ (o : ℕ) (a : Database) where
  -- the records of an id are the organization's
  abbrev pub Mine : ℕ → List IdempotencyRecord → Type 0
  Mine k rs =
      All (λ (r : IdempotencyRecord). (r.id == k) ≡ true → tenant_of o r.organization_id ≡ o) rs

  -- a state that tells to go on is that of a record of the organization
  abbrev pub Claimed : IdempotencyState → World → Type 0
  Claimed state w =
      Within o a w.db × (state.replay_status ≡ none → Mine state.record_id w.db.idempotency_records)

  Within-insert_record :
      (d : Database) (r : IdempotencyRecord)
      → r.organization_id ≡ some o
      → record_fits d r ≡ true
      → Within o a d
      → Within o a (insert_record r d)
  unfolding insert_record record_fits
  Within-insert_record d r own fits h = (
    ground (
      arith,
      outside-append (λ (x : IdempotencyRecord). tenant_of o x.organization_id) o
          d.idempotency_records r (ap (tenant_of o) own),
    ),
    assumption (
      h.1,
      Unique-insert (λ (x : IdempotencyRecord). x.id) (λ x. x.id == r.id) d.idempotency_records r
          (λ x same. ground arith) h.1.idempotency_records (ground arith),
    ),
  )

  inserted-Mine :
      (d : Database) (r : IdempotencyRecord)
      → r.organization_id ≡ some o
      → record_fits d r ≡ true
      → Mine r.id (insert_record r d).idempotency_records
  unfolding insert_record record_fits
  inserted-Mine d r own fits =
      All-append _ d.idempotency_records (r ∷ [])
        (All-map (λ x differs hit. absurd (differs (==→eq x.id r.id hit))) d.idempotency_records
          (All-fresh (λ (x : IdempotencyRecord). x.id) (λ x. x.id == r.id) r.id
            (λ x same. ground arith) d.idempotency_records (ground arith)))
        (λ hit. ap (tenant_of o) own, tt)

  replay-Claimed :
      (hash : String) (r : IdempotencyRecord)
      → Triple (λ w. Within o a w.db) (replay hash r) Claimed
  unfolding replay raise pure
  replay-Claimed hash r = record {
    at = λ w h. elim (Bool-cases (str_eq r.request_hash hash)) [
      | inr n ↦ rw n tt
      | inl y ↦
          elim (Bool-cases
            (is_completed r.status && present r.response_status && present r.response_body)) [
              | inr n ↦ rw y (rw n tt)
              | inl z ↦ rw y (rw z (h, λ none_there. absurd (ground arith)))
            ]
    ];
  }

  Within-complete :
      (d : Database) (k status : ℕ) (body : Fields)
      → Mine k d.idempotency_records
      → Within o a d
      → Within o a (record d {
        idempotency_records =
            update
              (λ (r : IdempotencyRecord). r.id == k)
              (complete_record status body)
              d.idempotency_records;
      })
  Within-complete d k status body mine h = (
    ground (
      arith,
      outside-update (λ (x : IdempotencyRecord). tenant_of o x.organization_id) o
          (λ (r : IdempotencyRecord). r.id == k) (complete_record status body) (λ r. refl)
          d.idempotency_records mine,
    ),
    assumption (
      h.1,
      Unique-update (λ (x : IdempotencyRecord). x.id) (λ (r : IdempotencyRecord). r.id == k)
          (complete_record status body) (λ r. refl) d.idempotency_records h.1.idempotency_records,
    ),
  )

module _ ⦃p : Platform⦄ (o : ℕ) (a : Database) where
  claim-Claimed :
      (fresh : IdempotencyRecord) (hash : String) (found : Option IdempotencyRecord)
      → fresh.organization_id ≡ some o
      → Triple (λ w. Within o a w.db) (claim fresh hash found) (Claimed o a)
  unfolding claim
  claim-Claimed fresh hash (some r) own = replay-Claimed o a hash r
  claim-Claimed fresh hash none own =
      Triple-bind _ _
        (Triple-flush {Q = λ _ w. Within o a w.db × Mine o a fresh.id w.db.idempotency_records} _ _
          (λ w h fits. (
            Within-insert_record o a w.db fresh own fits h,
            inserted-Mine o a w.db fresh own fits,
          )))
        λ _. Triple-pure _ (λ w h. (h.0, λ first. h.1))

  pub acquire-Claimed :
      (user_id : ℕ) (scope : Scope) (key hash : String)
      → Triple
          (λ w. Within o a w.db)
          (acquire_idempotency user_id (some o) scope key hash)
          (Claimed o a)
  unfolding acquire_idempotency
  acquire-Claimed user_id scope key hash = Triple-bind _ _ (Keeps-now (Within o a)) λ created_at.
      Triple-bind _ _ (Keeps-new_uuid (Within o a)) λ id.
        Triple-bind _ _ (Triple-gets _ (find_record scope key))
          λ found. Triple-weaken (λ w h. h.0) (claim-Claimed _ hash found refl)

  fresh-Within :
      (user : User) (payload : InviteMemberRequest) (state : IdempotencyState)
      → state.replay_status ≡ none
      → Triple
          (λ w. Within o a w.db × Mine o a state.record_id w.db.idempotency_records)
          (invite_once o user payload state)
          (λ _ w. Within o a w.db)
  unfolding invite_once complete_idempotency
  fresh-Within user payload state fresh = rw fresh (
      Triple-bind _ _ (Triple-or_raise _ _ _) λ role.
        Triple-bind _ _
          (Triple-weaken (λ w h. h.0)
            (Triple-and _ _ _ _ (invite_member o user payload.email role)
              (invite_member-Within o a user payload.email role)
              (invite_member-Keeps (Mine o a state.record_id) o user payload.email role)))
          λ i.
            Triple-bind _ _
              (Triple-write {Q = λ _ w. Within o a w.db} _
                (λ w h. Within-complete o a w.db state.record_id _ _ h.1 h.0))
              λ _. Triple-pure _ (λ w h. h))

  seen-Within :
      (user : User) (payload : InviteMemberRequest) (state : IdempotencyState) (s : ℕ)
      → state.replay_status ≡ some s
      → Triple (λ w. Within o a w.db) (invite_once o user payload state) (λ _ w. Within o a w.db)
  unfolding invite_once
  seen-Within user payload state s seen = rw seen (
      Triple-bind _ _ (Triple-or_raise _ _ _)
        λ body. Triple-after (λ x w h. (h.0).0) (Triple-or_raise _ (validate_invitation body) _))

  pub invite_once-Within :
      (user : User) (payload : InviteMemberRequest) (state : IdempotencyState)
      → Triple (Claimed o a state) (invite_once o user payload state) (λ _ w. Within o a w.db)
  invite_once-Within user payload state = elim (Option-cases state.replay_status) [
    | inl fresh ↦ record {
      at = λ w h. (fresh-Within user payload state fresh).at w (h.0, h.1 fresh);
    }
    | inr (s, seen) ↦ record { at = λ w h. (seen-Within user payload state s seen).at w h.0 }
  ]
