-- ===== src/Infra/Idempotency.antt =====
-- app/infra/idempotency.py and app/infra/idempotency_db.py. Requests are serial here: a row
-- that another open transaction has inserted is waited for by PostgreSQL.
pub mod Replay
pub mod Kept
use tenantflow_api.Prelude.{
  ℕ, ◌+◌, ◌*◌, ◌==◌, String, Bool, true, false, not, ◌&&◌, Option, none, some, [], ◌∷◌, ◌++◌,
  str_eq, present, scalar, exists, update, if◌then◌else◌, ⊤,
}
use tenantflow_api.Core.Errors.{conflict_error}
use tenantflow_api.Db.Json.{Fields}
use tenantflow_api.Db.Models.{
  Database, Scope, IdempotencyRecord, IdempotencyStatus, processing, completed,
}
use tenantflow_api.Db.Constraints.{user_exists, organization_exists, null_or}
use tenantflow_api.Db.Session.{
  Platform, Action, pure, raise, gets, write, flush, now, new_uuid, ◌>>=◌, ◌>>◌,
}

-- canonical JSON, hashed
unfoldable pub canonical_request_hash : ⦃p : Platform⦄ → Fields → String
canonical_request_hash ⦃p⦄ payload = p.sha256_json payload

pub record IdempotencyState : Type 0 where
  pub record_id : ℕ
  pub replay_status : Option ℕ
  pub replay_body : Option Fields

abbrev pub is_replay : IdempotencyState → Bool
is_replay s = present s.replay_status

abbrev pub same_organization : Option ℕ → Option ℕ → Bool
same_organization none none = true
same_organization (some a) (some b) = a == b
same_organization _ _ = false

abbrev pub same_scope : Scope → Scope → Bool
same_scope a b =
    str_eq a.action b.action && same_organization a.organization b.organization && a.user == b.user

unfoldable pub find_record : Scope → String → Database → Option IdempotencyRecord
find_record scope key d =
    scalar (λ (r : IdempotencyRecord). same_scope r.scope scope && str_eq r.key key)
      d.idempotency_records

abbrev pub is_completed : IdempotencyStatus → Bool
is_completed completed = true
is_completed _ = false

unfoldable pub insert_record : IdempotencyRecord → Database → Database
insert_record r d = record d { idempotency_records = d.idempotency_records ++ r ∷ [] }

unfoldable pub record_fits : Database → IdempotencyRecord → Bool
unfolding user_exists organization_exists
record_fits d r =
    not (exists (λ (x : IdempotencyRecord). x.id == r.id) d.idempotency_records)
    && user_exists d r.user_id
    && null_or (organization_exists d) r.organization_id

-- what a request does with a row that was there before it
unfoldable pub replay : String → IdempotencyRecord → Action IdempotencyState
replay request_hash r =
    if str_eq r.request_hash request_hash
    then if is_completed r.status && present r.response_status && present r.response_body
      then pure (record {
        record_id = r.id;
        replay_status = r.response_status;
        replay_body = r.response_body;
      })
      else raise (
          conflict_error "IDEMPOTENCY_IN_PROGRESS"
            "A request with this Idempotency-Key is in progress")
    else raise (
        conflict_error "IDEMPOTENCY_KEY_REUSED"
          "Idempotency-Key was already used with a different request payload")

module _ ⦃p : Platform⦄ where
  -- the branch of `INSERT ... ON CONFLICT DO NOTHING`: the row is there, or it is inserted
  unfoldable pub claim :
      IdempotencyRecord → String → Option IdempotencyRecord → Action IdempotencyState
  unfolding insert_record record_fits replay
  claim fresh request_hash (some r) = replay request_hash r
  claim fresh request_hash none = do
    flush (λ d. record_fits d fresh) (insert_record fresh)
    pure (record { record_id = fresh.id; replay_status = none; replay_body = none })

  unfoldable pub acquire_idempotency :
      ℕ → Option ℕ → Scope → String → String → Action IdempotencyState
  unfolding claim find_record
  acquire_idempotency user_id organization_id scope key request_hash = do
    created_at ← now
    id ← new_uuid
    let fresh : IdempotencyRecord = record {
      id = id;
      organization_id = organization_id;
      user_id = user_id;
      scope = scope;
      key = key;
      request_hash = request_hash;
      status = processing;
      response_status = none;
      response_body = none;
      created_at = created_at;
      expires_at = created_at + 24 * 3600;
    }
    found ← gets (find_record scope key)
    claim fresh request_hash found

abbrev pub complete_record : ℕ → Fields → IdempotencyRecord → IdempotencyRecord
complete_record status_code body r = record r {
  status = completed;
  response_status = some status_code;
  response_body = some body;
}

unfoldable pub complete_idempotency : ℕ → ℕ → Fields → Action ⊤
complete_idempotency record_id status_code body = write λ d. record d {
  idempotency_records =
      update (λ (r : IdempotencyRecord). r.id == record_id) (complete_record status_code body)
        d.idempotency_records;
}
