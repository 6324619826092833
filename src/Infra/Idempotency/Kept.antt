-- ===== src/Infra/Idempotency/Kept.antt =====
-- app/infra/idempotency_db.py: what a key stands for after its request was answered, and what a later
-- request with the key gets, with the same payload or another one.
use tenantflow_api.Prelude.{
  ℕ, ◌+◌, ◌≡◌, ◌∙◌, ap, subst, String, Bool, true, false, Option, none, some, List, inl, inr, arith,
  str_eq, str_eq→eq, Bool-cases,
}
use tenantflow_api.Core.Errors.{Result, ok, err, conflict_error}
use tenantflow_api.Db.Json.{Fields}
use tenantflow_api.Db.Models.{Scope, IdempotencyRecord}
use tenantflow_api.Db.Session.{Platform, World, ◌>>=◌}
use tenantflow_api.Infra.Idempotency.{
  IdempotencyState, acquire_idempotency, find_record, claim, replay,
}
use tenantflow_api.Infra.Idempotency.Replay.{IsAnswered, IsClaimed, IsHeld, acquire_answered}

-- what a request leaves under its key: the record, and the response that it stands for
pub record IsKept {A : Type 0} (read : Fields → Option A) (scope : Scope) (key hash : String)
    (x : A) (rs : List IdempotencyRecord) : Type 0 where
  pub status : ℕ
  pub body : Fields
  pub answered : IsAnswered scope key hash status body rs
  pub reads : read body ≡ some x

module _ {scope : Scope} {key hash : String} {state : IdempotencyState}
    {rs : List IdempotencyRecord} where
  pub IsClaimed-of :
      state.replay_status ≡ none
      → IsHeld scope key hash state rs
      → IsClaimed scope key hash state rs
  IsClaimed-of fresh (inl h) = h
  IsClaimed-of fresh (inr h) = let k = h.replay_status in absurd (ground arith)

  pub IsKept-of :
      {A : Type 0} {read : Fields → Option A} {s : ℕ} {body : Fields} {x : A}
      → state.replay_status ≡ some s
      → (IsHeld scope key hash state rs × (state.replay_body ≡ some body)) × (read body ≡ some x)
      → IsKept read scope key hash x rs
  IsKept-of seen ((inl h, b), e) = let k = h.first in absurd (ground arith)
  IsKept-of {read = read} {x = x} seen ((inr h, b), e) = record {
    status = h.status;
    body = h.body;
    answered = h.answered;
    reads = let k = h.replay_body in subst (λ c. read c ≡ some x) (ground arith) e;
  }

-- what a later request with the key gets, by whether its payload is the same
abbrev pub later : {A : Type 0} → Bool → A → Result A
later true x = ok x
later false x = err (
    conflict_error "IDEMPOTENCY_KEY_REUSED"
      "Idempotency-Key was already used with a different request payload")

abbrev pub kept_state : ℕ → ℕ → Fields → IdempotencyState
kept_state k status body = record {
  record_id = k;
  replay_status = some status;
  replay_body = some body;
}

module _ ⦃p : Platform⦄ (scope : Scope) (key hash : String) where
  pub acquire_later :
      (user_id : ℕ) (organization_id : Option ℕ) (status : ℕ) (body : Fields) (other : String)
      (w : World) (h : IsAnswered scope key hash status body w.db.idempotency_records)
      → acquire_idempotency user_id organization_id scope key other w ≡ (
        later (str_eq hash other) (kept_state (h.row).id status body),
        record w { ticks = w.ticks + 2 },
      )
  unfolding acquire_idempotency find_record claim replay ◌>>=◌
  acquire_later user_id organization_id status body other w h =
      elim (Bool-cases (str_eq hash other)) [
        | inl y ↦ rw y (
            let e = str_eq→eq hash other y in
            subst
              (λ o. acquire_idempotency user_id organization_id scope key o w ≡ (
                later true (kept_state (h.row).id status body),
                record w { ticks = w.ticks + 2 },
              ))
              e (acquire_answered scope key hash user_id organization_id status body w h))
        | inr n ↦ rw n (
            let f = h.found in
            let same = str_eq→eq (h.row).request_hash hash h.same_hash in
            let a : str_eq (h.row).request_hash other ≡ false = ap (λ x. str_eq x other) same ∙ n in
            rw f (rw a (ground arith)))
      ]
