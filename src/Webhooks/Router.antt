-- ===== src/Webhooks/Router.antt =====
-- app/modules/webhooks/router.py.
use tenantflow_api.Prelude.{
  ℕ, ◌==◌, String, Bool, true, false, not, ◌&&◌, Option, none, some, List, leb, length, take,
  select, scalar, exists, update, order_by, ⊤,
}
use tenantflow_api.Core.Errors.{Error, Result, err, not_found_error, conflict_error}
use tenantflow_api.Core.Permissions.{webhook_manage}
use tenantflow_api.Core.Dependencies.{require_permission}
use tenantflow_api.Db.Json.{end}
use tenantflow_api.Db.Models.{Database, User, WebhookEndpoint, WebhookDelivery, DeliveryState}
use tenantflow_api.Db.Session.{
  Platform, Job, Action, pure, raise_if, or_raise, gets, write, publish, ◌>>=◌, ◌>>◌,
}
use tenantflow_api.Audit.{record_audit}
use tenantflow_api.Webhooks.Targets.{Network}
use tenantflow_api.Webhooks.Service.{Cipher, WebhookCreate, create_webhook_endpoint}

abbrev pub recast : {A : Type 0} → Result A → Result A
recast (err (Error.value_error detail)) = err (Error.http 422 detail none)
recast r = r

-- `except ValueError as exc: raise HTTPException(422)`, round a block of the session
unfoldable pub value_error_as_422 : {A : Type 0} → Action A → Action A
value_error_as_422 m w = let (r, v) = m w in (recast r, v)

abbrev pub has_endpoint_id : ℕ → WebhookEndpoint → Bool
has_endpoint_id k e = e.id == k

abbrev pub has_delivery_id : ℕ → WebhookDelivery → Bool
has_delivery_id k x = x.id == k

unfoldable pub find_endpoint : ℕ → ℕ → Database → Option WebhookEndpoint
find_endpoint o k d =
    scalar (λ (e : WebhookEndpoint). e.id == k && e.organization_id == o) d.webhook_endpoints

-- session.get(WebhookEndpoint, id)
unfoldable pub get_endpoint : ℕ → Database → Option WebhookEndpoint
get_endpoint k d = scalar (has_endpoint_id k) d.webhook_endpoints

-- the join of a delivery with its endpoint, within the organization
unfoldable pub delivery_in : ℕ → Database → WebhookDelivery → Bool
delivery_in o d x =
    exists (λ (e : WebhookEndpoint). e.id == x.endpoint_id && e.organization_id == o)
      d.webhook_endpoints

unfoldable pub find_delivery : ℕ → ℕ → Database → Option WebhookDelivery
unfolding delivery_in
find_delivery o k d =
    scalar (λ (x : WebhookDelivery). x.id == k && delivery_in o d x) d.webhook_deliveries

unfoldable pub deactivate_row : ℕ → Database → Database
deactivate_row k d = record d {
  webhook_endpoints =
      update (has_endpoint_id k) (λ e. record e { is_active = false }) d.webhook_endpoints;
}

abbrev pub to_retry : WebhookDelivery → WebhookDelivery
to_retry x = record x { state = DeliveryState.retrying; next_retry_at = none; last_error = none }

unfoldable pub retry_row : ℕ → Database → Database
retry_row k d = record d {
  webhook_deliveries = update (has_delivery_id k) to_retry d.webhook_deliveries;
}

abbrev pub is_delivered : DeliveryState → Bool
is_delivered DeliveryState.delivered = true
is_delivered _ = false

-- `endpoint is None or not endpoint.is_active`
abbrev pub is_closed : Option WebhookEndpoint → Bool
is_closed none = true
is_closed (some e) = not e.is_active

abbrev pub same_state : DeliveryState → DeliveryState → Bool
same_state DeliveryState.pending DeliveryState.pending = true
same_state DeliveryState.delivered DeliveryState.delivered = true
same_state DeliveryState.retrying DeliveryState.retrying = true
same_state DeliveryState.dead DeliveryState.dead = true
same_state _ _ = false

abbrev pub state_passes : Option DeliveryState → WebhookDelivery → Bool
state_passes none x = true
state_passes (some s) x = same_state x.state s

module _ ⦃p : Platform⦄ where
  unfoldable pub create_webhook :
      Network → Cipher → ℕ → WebhookCreate → String → Action (WebhookEndpoint × String)
  unfolding create_webhook_endpoint record_audit value_error_as_422 require_permission
  create_webhook network cipher organization_id payload token = do
    context ← require_permission webhook_manage organization_id token
    raise_if (not (leb 1 (length payload.events) && leb (length payload.events) 20))
        Error.validation
    value_error_as_422 (do
      created ← create_webhook_endpoint network cipher organization_id context.user.id payload
      record_audit organization_id (some context.user.id) "webhook.created" "webhook_endpoint"
          (some (created.0).id) end
      pure created)

  unfoldable pub list_webhooks : ℕ → String → Action (List WebhookEndpoint)
  unfolding require_permission
  list_webhooks organization_id token = do
    require_permission webhook_manage organization_id token
    gets λ d.
        order_by (λ (a b : WebhookEndpoint). leb b.created_at a.created_at)
          (select (λ (e : WebhookEndpoint). e.organization_id == organization_id)
            d.webhook_endpoints)

  unfoldable pub deactivate : ℕ → ℕ → User → Action ⊤
  unfolding find_endpoint deactivate_row record_audit
  deactivate organization_id endpoint_id user = do
    found ← gets (find_endpoint organization_id endpoint_id)
    endpoint ←
        or_raise found
          (not_found_error "WEBHOOK_ENDPOINT_NOT_FOUND" "Webhook endpoint was not found")
    write (deactivate_row endpoint.id)
    record_audit organization_id (some user.id) "webhook.deactivated" "webhook_endpoint"
        (some endpoint.id) end
    pure tt

  unfoldable pub deactivate_webhook : ℕ → ℕ → String → Action ⊤
  unfolding deactivate require_permission
  deactivate_webhook organization_id endpoint_id token = do
    context ← require_permission webhook_manage organization_id token
    deactivate organization_id endpoint_id context.user

  -- the query parameter `state` is one of the four words, or a 422 before this
  unfoldable pub list_deliveries :
      ℕ → Option DeliveryState → ℕ → String → Action (List WebhookDelivery)
  unfolding delivery_in require_permission
  list_deliveries organization_id state limit token = do
    require_permission webhook_manage organization_id token
    raise_if (not (leb 1 limit && leb limit 200)) Error.validation
    gets λ d. take limit (
        order_by (λ (a b : WebhookDelivery). leb b.created_at a.created_at)
          (select (λ x. delivery_in organization_id d x && state_passes state x)
            d.webhook_deliveries))

  unfoldable pub retry : ℕ → ℕ → User → Action WebhookDelivery
  unfolding find_delivery get_endpoint retry_row record_audit
  retry organization_id delivery_id user = do
    found ← gets (find_delivery organization_id delivery_id)
    delivery ←
        or_raise found
          (not_found_error "WEBHOOK_DELIVERY_NOT_FOUND" "Webhook delivery was not found")
    endpoint ← gets (get_endpoint delivery.endpoint_id)
    raise_if (is_closed endpoint)
        (conflict_error "WEBHOOK_ENDPOINT_INACTIVE" "Webhook endpoint is inactive")
    raise_if (is_delivered delivery.state)
        (conflict_error "WEBHOOK_ALREADY_DELIVERED" "Delivered webhooks are not retried")
    write (retry_row delivery.id)
    record_audit organization_id (some user.id) "webhook.delivery_retried" "webhook_delivery"
        (some delivery.id) end
    publish (Job.deliver_webhook_task delivery.id)
    pure (to_retry delivery)

  unfoldable pub retry_delivery : ℕ → ℕ → String → Action WebhookDelivery
  unfolding retry require_permission
  retry_delivery organization_id delivery_id token = do
    context ← require_permission webhook_manage organization_id token
    retry organization_id delivery_id context.user
