-- ===== src/Infra/Idempotency/Replay.antt =====
-- app/infra/idempotency_db.py: what a key stands for after it is acquired and after it is
-- completed, and what a second request with it gets.
use tenantflow_api.Prelude.{
  ℕ, ◌+◌, ◌≡◌, refl, ◌∙◌, ◌⊎◌, inl, inr, String, Bool, true, Option, none, some, List, [], ◌∷◌,
  str_eq, scalar, scalar-append_none, scalar-update, ◌&&◌, present, present_of, ap, ◌==◌, ==-refl,
  Bool-cases, str_eq_refl, sym, subst, arith, ⊤, if◌then◌else◌,
}
use tenantflow_api.Core.Errors.{ok}
use tenantflow_api.Db.Json.{Fields}
use tenantflow_api.Db.Models.{
  Scope, IdempotencyRecord, completed, processing, failed, IdempotencyStatus,
}
use tenantflow_api.Db.Session.{Platform, World, pure, raise, ◌>>=◌}
use tenantflow_api.Db.Session.Triple.{
  Returns, Triple, Triple-bind, Triple-pure, Triple-gets, Triple-flush, Triple-write, Triple-weaken,
  Keeps-now, Keeps-new_uuid,
}
use tenantflow_api.Infra.Idempotency.{
  IdempotencyState, same_organization, same_scope, is_completed, find_record, insert_record, replay,
  claim, acquire_idempotency, complete_record, complete_idempotency,
}

abbrev pub has_key : Scope → String → IdempotencyRecord → Bool
has_key scope key r = same_scope r.scope scope && str_eq r.key key

-- The key has a completed record, whose response is `status` and `body`.
pub record IsAnswered (scope : Scope) (key hash : String) (status : ℕ) (body : Fields)
    (rs : List IdempotencyRecord) : Type 0 where
  pub row : IdempotencyRecord
  pub found : scalar (has_key scope key) rs ≡ some row
  pub same_hash : str_eq row.request_hash hash ≡ true
  pub done : row.status ≡ completed
  pub response_status : row.response_status ≡ some status
  pub response_body : row.response_body ≡ some body

-- The state was handed out to the first request with the key.
pub record IsClaimed (scope : Scope) (key hash : String) (state : IdempotencyState)
    (rs : List IdempotencyRecord) : Type 0 where
  pub row : IdempotencyRecord
  pub found : scalar (has_key scope key) rs ≡ some row
  pub same_hash : str_eq row.request_hash hash ≡ true
  pub same_id : row.id ≡ state.record_id
  pub first : state.replay_status ≡ none

-- The state tells to replay what the key's record says.
pub record IsReplayed (scope : Scope) (key hash : String) (state : IdempotencyState)
    (rs : List IdempotencyRecord) : Type 0 where
  pub status : ℕ
  pub body : Fields
  pub answered : IsAnswered scope key hash status body rs
  pub replay_status : state.replay_status ≡ some status
  pub replay_body : state.replay_body ≡ some body

abbrev pub IsHeld : Scope → String → String → IdempotencyState → List IdempotencyRecord → Type 0
IsHeld scope key hash state rs =
    IsClaimed scope key hash state rs ⊎ IsReplayed scope key hash state rs

same_scope_refl : (s : Scope) → same_scope s s ≡ true
same_scope_refl s =
    let a = str_eq_refl s.action in let b = same_organization-refl s.organization in ground arith
  where
    same_organization-refl : (o : Option ℕ) → same_organization o o ≡ true
    same_organization-refl none = refl
    same_organization-refl (some k) = ground arith

completed_of : (s : IdempotencyStatus) → is_completed s ≡ true → s ≡ completed
completed_of completed h = refl
completed_of processing h = absurd (ground arith)
completed_of failed h = absurd (ground arith)

abbrev is_answer : IdempotencyRecord → Bool
is_answer r = is_completed r.status && present r.response_status && present r.response_body

module _ ⦃p : Platform⦄ (scope : Scope) (key hash : String) where
  replay_Returns :
      (r : IdempotencyRecord) (w : World)
      → find_record scope key w.db ≡ some r
      → Returns (λ state v. IsHeld scope key hash state v.db.idempotency_records) (replay hash r w)
  unfolding replay find_record pure raise
  replay_Returns r w e = elim (Bool-cases (str_eq r.request_hash hash)) [
    | inr n ↦ rw n tt
    | inl y ↦ elim (Bool-cases (is_answer r)) [
      | inr n ↦ rw y (rw n tt)
      | inl z ↦ rw y (
          rw z (
            let (s, is_s) = present_of r.response_status (ground arith) in
            let (b, is_b) = present_of r.response_body (ground arith) in
            inr (record {
              status = s;
              body = b;
              answered = record {
                row = r;
                found = e;
                same_hash = y;
                done = completed_of r.status (ground arith);
                response_status = is_s;
                response_body = is_b;
              };
              replay_status = is_s;
              replay_body = is_b;
            })))
    ]
  ]

  own :
      {r : IdempotencyRecord}
      → r.scope ≡ scope
      → r.key ≡ key
      → scalar (has_key scope key) (r ∷ []) ≡ some r
  unfolding scalar
  own {r = r} s k =
      let a = subst (λ x. same_scope x scope ≡ true) (sym s) (same_scope_refl scope) in
      let b = subst (λ x. str_eq x key ≡ true) (sym k) (str_eq_refl key) in ground arith

  claim_lem :
      (fresh : IdempotencyRecord) (found : Option IdempotencyRecord)
      → fresh.scope ≡ scope
      → fresh.key ≡ key
      → fresh.request_hash ≡ hash
      → Triple
          (λ w. find_record scope key w.db ≡ found)
          (claim fresh hash found)
          (λ state w. IsHeld scope key hash state w.db.idempotency_records)
  unfolding claim insert_record find_record
  claim_lem fresh (some r) s k h = record { at = replay_Returns r }
  claim_lem fresh none s k h =
      Triple-bind _ _
        (Triple-flush _ _ (λ w e fits. record {
          row = fresh;
          found = scalar-append_none (has_key scope key) w.db.idempotency_records _ e ∙ own s k;
          same_hash = subst (λ x. str_eq x hash ≡ true) (sym h) (str_eq_refl hash);
          same_id = refl;
          first = refl;
        }))
        λ _. Triple-pure _ (λ w h. inl h)

  pub acquire_lem :
      (user_id : ℕ) (organization_id : Option ℕ)
      → Triple
          (λ w. ⊤)
          (acquire_idempotency user_id organization_id scope key hash)
          (λ state w. IsHeld scope key hash state w.db.idempotency_records)
  unfolding acquire_idempotency
  acquire_lem user_id organization_id = Triple-bind _ _ (Keeps-now (λ d. ⊤)) λ created_at.
      Triple-bind _ _ (Keeps-new_uuid (λ d. ⊤)) λ id.
        Triple-bind _ _ (Triple-gets _ (find_record scope key))
          λ found. Triple-weaken (λ w h. h.1) (claim_lem _ found refl refl refl)

  pub complete_lem :
      (state : IdempotencyState) (status : ℕ) (body : Fields)
      → Triple
          (λ w. IsClaimed scope key hash state w.db.idempotency_records)
          (complete_idempotency state.record_id status body)
          (λ _ w. IsAnswered scope key hash status body w.db.idempotency_records)
  unfolding complete_idempotency
  complete_lem state status body = Triple-write _ λ w h. record {
    row = complete_record status body h.row;
    found =
        scalar-update (has_key scope key) (λ r. r.id == state.record_id)
          (complete_record status body) w.db.idempotency_records h.row (λ y. refl) h.found
        ∙ ap (λ b. some (if b then complete_record status body h.row else h.row))
            (subst (λ k. (k == state.record_id) ≡ true) (sym h.same_id) (==-refl state.record_id));
    same_hash = h.same_hash;
    done = refl;
    response_status = refl;
    response_body = refl;
  }

  -- a request with the key of a completed record and the same payload
  pub acquire_answered :
      (user_id : ℕ) (organization_id : Option ℕ) (status : ℕ) (body : Fields) (w : World)
      (h : IsAnswered scope key hash status body w.db.idempotency_records)
      → acquire_idempotency user_id organization_id scope key hash w ≡ (
        ok (record {
          record_id = (h.row).id;
          replay_status = some status;
          replay_body = some body;
        }),
        record w { ticks = w.ticks + 2 },
      )
  unfolding acquire_idempotency find_record claim replay ◌>>=◌
  acquire_answered user_id organization_id status body w h =
      let f = h.found in
      let a = h.same_hash in
      let b = h.done in
      let c = h.response_status in
      let d = h.response_body in rw f (rw a (rw b (rw c (rw d (ground arith)))))
