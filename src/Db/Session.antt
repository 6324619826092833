-- ===== src/Db/Session.antt =====
-- app/db/session.py: the state that a request or a job works on, and the transaction that
-- `get_session` opens for each request. What the program takes from outside (the clock, uuid4,
-- secrets, hashes, the broker) is the record `Platform`.
pub mod Triple
use tenantflow_api.Prelude.{
  ℕ, ◌+◌, String, Bool, Option, none, some, List, [], ◌∷◌, ◌++◌, if◌then◌else◌, ⊤,
}
use tenantflow_api.Core.Errors.{Error, Result, ok, err}
use tenantflow_api.Core.Config.{Settings}
use tenantflow_api.Core.Claims.{Claims}
use tenantflow_api.Core.Pagination.{CursorJson}
use tenantflow_api.Db.Json.{Fields}
use tenantflow_api.Db.Models.{Database}
use tenantflow_api.Infra.RateLimit.{Bucket, LuaNumbers}

-- `clock n`, `uuid4 n` and `token_urlsafe n` are what the n-th call sees; time is in seconds.
pub record Platform : Type 0 where
  pub settings : Settings
  pub clock : ℕ → ℕ
  pub uuid4 : ℕ → ℕ
  pub token_urlsafe : ℕ → String
  pub token_fingerprint : String → String
  pub sha256_json : Fields → String
  pub hash_password : String → String
  pub verify_password : String → String → Bool
  pub jwt_encode : Claims → String → String
  pub jwt_decode : String → String → ℕ → String → String → Option Claims
  pub lower : String → String
  pub strip : String → String
  pub cursor_json : CursorJson
  pub collate : String → String → Bool
  pub broker_accepts : ℕ → Bool
  pub lua : LuaNumbers

-- the messages that the API and the workers put on the Celery queue
pub data Job : Type 0 where
  send_invitation_task : ℕ → String → Job
  deliver_webhook_task : ℕ → Job

-- `jobs` and `buckets` live in Redis, outside the transaction. `ticks` counts the calls of the
-- platform; `metrics` lists the counters that were incremented, with their label.
pub record World : Type 0 where
  pub db : Database
  pub ticks : ℕ
  pub jobs : List Job
  pub buckets : List (String × Bucket)
  pub metrics : List (String × String)

-- A coroutine over the session. What was written before an exception is still in the session.
abbrev pub Action : Type 0 → Type 0
Action A = World → Result A × World

module _ {A : Type 0} where
  unfoldable pub pure : A → Action A
  pure a w = (ok a, w)

  unfoldable pub raise : Error → Action A
  raise e w = (err e, w)

  unfoldable pub lift : Result A → Action A
  lift r w = (r, w)

  unfoldable pub gets : (Database → A) → Action A
  gets f w = (ok (f w.db), w)

  -- `if x is None: raise e`
  unfoldable pub or_raise : Option A → Error → Action A
  or_raise none e w = (err e, w)
  or_raise (some a) e w = (ok a, w)

unfoldable pub raise_if : Bool → Error → Action ⊤
raise_if b e w = (if b then err e else ok tt, w)

unfoldable pub write : (Database → Database) → Action ⊤
write f w = (ok tt, record w { db = f w.db })

-- a flush: the statement is sent if the constraints hold, and raises IntegrityError if not
unfoldable pub flush : (Database → Bool) → (Database → Database) → Action ⊤
flush fits f w = if fits w.db then (ok tt, record w { db = f w.db }) else (err Error.integrity, w)

unfoldable pub count_metric : String → String → Action ⊤
count_metric name label w = (ok tt, record w { metrics = w.metrics ++ (name, label) ∷ [] })

module _ ⦃p : Platform⦄ where
  -- datetime.now(UTC)
  unfoldable pub now : Action ℕ
  now w = (ok (p.clock w.ticks), record w { ticks = w.ticks + 1 })

  unfoldable pub new_uuid : Action ℕ
  new_uuid w = (ok (p.uuid4 w.ticks), record w { ticks = w.ticks + 1 })

  unfoldable pub new_token : Action String
  new_token w = (ok (p.token_urlsafe w.ticks), record w { ticks = w.ticks + 1 })

  -- `task.delay(...)`: a broker that does not accept the message raises
  unfoldable pub publish : Job → Action ⊤
  publish job w =
      if p.broker_accepts w.ticks
      then (ok tt, record w { ticks = w.ticks + 1; jobs = w.jobs ++ job ∷ [] })
      else (err (Error.runtime_error "broker unavailable"), record w { ticks = w.ticks + 1 })

-- an exception passes by the rest of the block
abbrev pub pass : {A B : Type 0} → (A → Action B) → Result A → Action B
pass f (ok a) w = f a w
pass f (err e) w = (err e, w)

-- opening this opens the steps above too
infixl 5 ◌>>=◌ ◌>>◌
unfoldable pub ◌>>=◌ : {A B : Type 0} → Action A → (A → Action B) → Action B
unfolding pure raise lift gets or_raise raise_if write flush count_metric now new_uuid new_token
    publish
◌>>=◌ m f w = let (r, v) = m w in pass f r v

abbrev pub ◌>>◌ : {A B : Type 0} → Action A → Action B → Action B
m >> k = m >>= λ _. k

-- `async with session.begin()`: an exception rolls the database back and goes on
abbrev pub settle : {A : Type 0} → Database → Result A → World → Result A × World
settle before (ok a) w = (ok a, w)
settle before (err e) w = (err e, record w { db = before })

unfoldable pub request : {A : Type 0} → Action A → Action A
request m w = let (r, v) = m w in settle w.db r v
