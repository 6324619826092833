-- ===== src/Webhooks/Events.antt =====
-- app/modules/webhooks/events.py.
pub mod Keeps
use tenantflow_api.Prelude.{
  ℕ, ◌==◌, String, Bool, ◌&&◌, none, List, [], ◌∷◌, ◌++◌, str_eq, select, exists, if◌then◌else◌, ⊤,
}
use tenantflow_api.Db.Json.{Fields, end, field, str, uuid, obj}
use tenantflow_api.Db.Models.{Database, WebhookEndpoint, WebhookDelivery, DeliveryState}
use tenantflow_api.Db.Constraints.{webhook_delivery_fits}
use tenantflow_api.Db.Session.{
  Platform, Job, Action, pure, gets, flush, now, new_uuid, publish, ◌>>=◌, ◌>>◌,
}

abbrev pub insert_delivery : WebhookDelivery → Database → Database
insert_delivery r d = record d { webhook_deliveries = d.webhook_deliveries ++ r ∷ [] }

-- the active endpoints of an organization
unfoldable pub active_endpoints : ℕ → Database → List WebhookEndpoint
active_endpoints o d =
    select (λ (e : WebhookEndpoint). e.organization_id == o && e.is_active) d.webhook_endpoints

-- `event_type in endpoint.events`
unfoldable pub subscribes : String → WebhookEndpoint → Bool
subscribes event_type e = exists (λ (s : String). str_eq s event_type) e.events

module _ ⦃p : Platform⦄ where
  unfoldable pub add_delivery : ℕ → String → Fields → WebhookEndpoint → Action ℕ
  add_delivery event_id event_type payload endpoint = do
    created_at ← now
    id ← new_uuid
    let delivery : WebhookDelivery = record {
      id = id;
      created_at = created_at;
      event_id = event_id;
      endpoint_id = endpoint.id;
      event_type = event_type;
      payload = obj (
          field "id" (uuid event_id)
            (field "type" (str event_type) (field "data" (obj payload) end)));
      state = DeliveryState.pending;
      attempt_count = 0;
      response_status = none;
      last_error = none;
      next_retry_at = none;
    }
    flush (λ d. webhook_delivery_fits d delivery) (insert_delivery delivery)
    pure id

  -- the loop over the endpoints, and the ids of the deliveries that it adds
  unfoldable pub add_deliveries : ℕ → String → Fields → List WebhookEndpoint → Action (List ℕ)
  unfolding add_delivery subscribes
  add_deliveries event_id event_type payload [] = pure []
  add_deliveries event_id event_type payload (e ∷ es) =
      let rest = add_deliveries event_id event_type payload es in
      if subscribes event_type e
      then (do id ← add_delivery event_id event_type payload e; ids ← rest; pure (id ∷ ids))
      else rest

  unfoldable pub publish_deliveries : List ℕ → Action ⊤
  publish_deliveries [] = pure tt
  publish_deliveries (id ∷ ids) = do publish (Job.deliver_webhook_task id); publish_deliveries ids

  unfoldable pub emit_event : ℕ → String → Fields → Action ℕ
  unfolding add_deliveries publish_deliveries active_endpoints
  emit_event organization_id event_type payload = do
    event_id ← new_uuid
    endpoints ← gets (active_endpoints organization_id)
    delivery_ids ← add_deliveries event_id event_type payload endpoints
    publish_deliveries delivery_ids
    pure event_id
