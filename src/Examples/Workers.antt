-- ===== src/Examples/Workers.antt =====
-- The delivery of a webhook at work.
use tenantflow_api.Prelude.{
  ℕ, ◌≡◌, refl, String, true, false, none, some, List, [], ◌∷◌, arith, inl, ◌++◌, map,
}
use tenantflow_api.Core.Errors.{ok}
use tenantflow_api.Db.Json.{Json}
use tenantflow_api.Db.Models.{WebhookEndpoint, WebhookDelivery, DeliveryState}
use tenantflow_api.Db.Session.{World, request}
use tenantflow_api.Webhooks.Targets.{Network, validate_webhook_target}
use tenantflow_api.Webhooks.Router.{get_endpoint}
use tenantflow_api.Workers.Deliver.{
  Attempt, count_attempt, get_delivery, begin_attempt, finish, http_error, response,
}
use tenantflow_api.Workers.Attempts.{IsOpen, failing_jobs, jobs, gives_up}
use tenantflow_api.Workers.Overlap.{overtaken}
use tenantflow_api.Db.Json.{end}
use tenantflow_api.Webhooks.Events.{active_endpoints, subscribes, emit_event}
use tenantflow_api.Webhooks.Fanout.{addressed, told, notice, emit_event_lem}
use tenantflow_api.Examples.World.{demo, db, at}

abbrev pub network : Network
network = record {
  hostname = λ url. some "hooks.example.com";
  ip_address = λ host. none;
  is_global = λ address. true;
  getaddrinfo = λ host. some (7 ∷ []);
}

abbrev pub endpoint : WebhookEndpoint
endpoint = record {
  id = 40;
  created_at = 0;
  organization_id = 10;
  url = "https://hooks.example.com";
  signing_secret_hash = "h";
  signing_secret_encrypted = "e";
  events = "task.created" ∷ [];
  is_active = true;
  created_by = 1;
}

abbrev pub fresh : WebhookDelivery
fresh = record {
  id = 50;
  created_at = 0;
  event_id = 60;
  endpoint_id = 40;
  event_type = "task.created";
  payload = Json.null;
  state = DeliveryState.pending;
  attempt_count = 0;
  response_status = none;
  last_error = none;
  next_retry_at = none;
}

abbrev done : WebhookDelivery
done = record fresh {
  state = DeliveryState.delivered;
  attempt_count = 1;
  response_status = some 200;
}

abbrev pub holding : WebhookDelivery → World
holding x = at 0 (record db { webhook_endpoints = endpoint ∷ []; webhook_deliveries = x ∷ [] })

fresh-IsOpen : IsOpen ⦃p = demo⦄ network 50 fresh endpoint (holding fresh).db
unfolding get_delivery get_endpoint validate_webhook_target tenantflow_api.Prelude.scalar
    tenantflow_api.Prelude.exists
fresh-IsOpen = record { found = refl; endpoint = refl; active = refl; target = refl }

gives_up_example :
    let dead =
      failing_jobs ⦃p = demo⦄ network 50 ("a" ∷ "b" ∷ "c" ∷ "d" ∷ "e" ∷ []) (holding fresh) in
    ((y : WebhookDelivery) × (get_delivery 50 dead.db ≡ some y)
      × (y.state ≡ DeliveryState.dead)
      × (y.attempt_count ≡ 5))
    × ((jobs ⦃p = demo⦄ network 50 (response 200 ∷ []) dead).db ≡ dead.db)
gives_up_example =
    gives_up ⦃p = demo⦄ network 50 ("a" ∷ "b" ∷ "c" ∷ "d" ∷ "e" ∷ []) (response 200 ∷ []) fresh
      endpoint (holding fresh) fresh-IsOpen (inl refl) (omega arith) (omega arith)

overtaken_example :
    let first = request (begin_attempt ⦃p = demo⦄ network 50) (holding fresh) in
    let second = request (begin_attempt ⦃p = demo⦄ network 50) first.1 in
    let mine = count_attempt fresh in
    let yours = count_attempt (count_attempt fresh) in
    let answered = (request (finish ⦃p = demo⦄ network 50 mine (response 200)) second.1).1 in
    let failed = (request (finish ⦃p = demo⦄ network 50 yours (http_error "timeout")) answered).1 in
    (first.0 ≡ ok (Attempt.post endpoint mine))
    × (second.0 ≡ ok (Attempt.post endpoint yours))
    × ((y : WebhookDelivery) × (get_delivery 50 answered.db ≡ some y)
        × (y.state ≡ DeliveryState.delivered))
    × ((z : WebhookDelivery) × (get_delivery 50 failed.db ≡ some z)
        × (z.state ≡ DeliveryState.retrying))
overtaken_example =
    overtaken ⦃p = demo⦄ network 50 200 "timeout" fresh endpoint (holding fresh) fresh-IsOpen refl
      (omega arith)

abbrev other : WebhookEndpoint
other = record endpoint { id = 41; events = "task.deleted" ∷ [] }

abbrev closed : WebhookEndpoint
closed = record endpoint { id = 42; is_active = false }

-- three endpoints, of which one is to be told that a task was created
abbrev watched : World
watched = at 0 (record db {
  webhook_endpoints = other ∷ endpoint ∷ closed ∷ [];
  webhook_deliveries = done ∷ [];
})

emit_event_lem_example :
    addressed (request (emit_event ⦃p = demo⦄ 10 "task.created" end) watched).1.db
    ≡ told done ∷ notice 100 "task.created" end endpoint ∷ []
unfolding emit_event request tenantflow_api.Db.Session.◌>>=◌ tenantflow_api.Prelude.select
    tenantflow_api.Prelude.exists active_endpoints subscribes
    tenantflow_api.Db.Constraints.webhook_delivery_fits
emit_event_lem_example =
    emit_event_lem ⦃p = demo⦄ 10 100 "task.created" end watched
      (request (emit_event ⦃p = demo⦄ 10 "task.created" end) watched).1 refl
