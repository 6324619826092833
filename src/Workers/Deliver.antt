-- ===== src/Workers/Deliver.antt =====
-- app/workers/tasks.py: `deliver_webhook_task`. The job runs two transactions with the POST
-- between them: `begin_attempt`, then `finish_failed` or `finish_delivered`. The text of an HTTP
-- error is the one that is cut to 2000 characters. The request that is posted is in Workers.Post;
-- the secret of the endpoint is taken to decrypt.
use tenantflow_api.Prelude.{
  ℕ, ◌+◌, ◌*◌, ◌^◌, min, String, Bool, true, false, Option, none, some, leb, scalar, update, str_eq,
  ◌==◌, if◌then◌else◌, ⊤,
}
use tenantflow_api.Core.Errors.{Error, Result, ok, err}
use tenantflow_api.Db.Models.{Database, WebhookEndpoint, WebhookDelivery, DeliveryState}
use tenantflow_api.Db.Session.{
  Platform, Action, pure, raise, or_raise, gets, write, count_metric, now, request, ◌>>=◌, ◌>>◌,
}
use tenantflow_api.Webhooks.Targets.{Network, validate_webhook_target}
use tenantflow_api.Webhooks.Router.{has_delivery_id, get_endpoint}

-- what the first transaction decides; a POST is made with the job's object, its attempt counted
pub data Attempt : Type 0 where
  skipped dead : Attempt
  post : WebhookEndpoint → WebhookDelivery → Attempt

-- what the HTTP client reports: a success with its status, or an error with its text
pub data HttpOutcome : Type 0 where
  response : ℕ → HttpOutcome
  http_error : String → HttpOutcome

pub data Outcome : Type 0 where
  skipped dead delivered retry : Outcome

unfoldable pub get_delivery : ℕ → Database → Option WebhookDelivery
get_delivery k d = scalar (has_delivery_id k) d.webhook_deliveries

-- UPDATE webhook_deliveries … WHERE id = …
unfoldable pub update_delivery : ℕ → (WebhookDelivery → WebhookDelivery) → Database → Database
update_delivery k f d = record d {
  webhook_deliveries = update (has_delivery_id k) f d.webhook_deliveries;
}

-- `delivery.state in {"delivered", "dead"}`
abbrev pub is_final : DeliveryState → Bool
is_final DeliveryState.delivered = true
is_final DeliveryState.dead = true
is_final _ = false

abbrev pub close : WebhookDelivery → WebhookDelivery
close x = record x { state = DeliveryState.dead }

abbrev pub close_with : String → WebhookDelivery → WebhookDelivery
close_with reason x = record x { state = DeliveryState.dead; last_error = some reason }

abbrev pub count_attempt : WebhookDelivery → WebhookDelivery
count_attempt x = record x { attempt_count = x.attempt_count + 1 }

-- `current.attempt_count >= 5`
abbrev pub is_exhausted : WebhookDelivery → Bool
is_exhausted x = leb 5 x.attempt_count

abbrev pub fail : ℕ → String → WebhookDelivery → WebhookDelivery
fail instant reason x =
    if is_exhausted x
    then record x { state = DeliveryState.dead; last_error = some reason }
    else record x {
      state = DeliveryState.retrying;
      last_error = some reason;
      next_retry_at = some (instant + 2 ^ x.attempt_count * 5);
    }

abbrev pub deliver : ℕ → WebhookDelivery → WebhookDelivery
deliver status x = record x {
  state = DeliveryState.delivered;
  response_status = some status;
  last_error = none;
  next_retry_at = none;
}

abbrev pub same_state : DeliveryState → DeliveryState → Bool
same_state DeliveryState.pending DeliveryState.pending = true
same_state DeliveryState.delivered DeliveryState.delivered = true
same_state DeliveryState.retrying DeliveryState.retrying = true
same_state DeliveryState.dead DeliveryState.dead = true
same_state _ _ = false

abbrev pub same_number : Option ℕ → Option ℕ → Bool
same_number none none = true
same_number (some a) (some b) = a == b
same_number _ _ = false

abbrev pub same_text : Option String → Option String → Bool
same_text none none = true
same_text (some a) (some b) = str_eq a b
same_text _ _ = false

-- The UPDATE of a flush: it sets the columns in which the changed object differs from what was loaded.
-- session.get in the second transaction gives the object of the first one again, with its own values:
-- the session expires nothing on commit, and SELECT … FOR UPDATE overwrites nothing that is loaded.
unfoldable pub flush_changes : WebhookDelivery → WebhookDelivery → WebhookDelivery → WebhookDelivery
flush_changes loaded changed row = record row {
  state = if same_state loaded.state changed.state then row.state else changed.state;
  response_status =
      if same_number loaded.response_status changed.response_status
      then row.response_status
      else changed.response_status;
  last_error =
      if same_text loaded.last_error changed.last_error then row.last_error else changed.last_error;
  next_retry_at =
      if same_number loaded.next_retry_at changed.next_retry_at
      then row.next_retry_at
      else changed.next_retry_at;
}

module _ ⦃p : Platform⦄ (network : Network) where
  unfoldable pub count_dead : Action ⊤
  count_dead = do count_metric "webhook_delivery" "dead"; count_metric "webhook_delivery_job" "dead"

  -- the branches on the target of an active endpoint
  unfoldable pub check_target : WebhookEndpoint → WebhookDelivery → Result ⊤ → Action Attempt
  unfolding update_delivery count_dead
  check_target e x (ok _) = do
    write (update_delivery x.id count_attempt)
    pure (Attempt.post e (count_attempt x))
  check_target e x (err (Error.value_error reason)) = do
    write (update_delivery x.id (close_with reason))
    count_dead
    pure Attempt.dead
  check_target e x (err other) = raise other

  -- the branches on the endpoint of a delivery that is not final
  unfoldable pub open_attempt : WebhookDelivery → Option WebhookEndpoint → Action Attempt
  unfolding update_delivery count_dead check_target validate_webhook_target
  open_attempt x none = do write (update_delivery x.id close); count_dead; pure Attempt.dead
  open_attempt x (some e) =
      if e.is_active
      then check_target e x (validate_webhook_target p.settings network e.url)
      else (do write (update_delivery x.id close); count_dead; pure Attempt.dead)

  unfoldable pub begin_attempt : ℕ → Action Attempt
  unfolding get_delivery open_attempt get_endpoint
  begin_attempt delivery_id = do
    found ← gets (get_delivery delivery_id)
    x ← or_raise found (Error.runtime_error "Webhook delivery is not committed yet")
    if is_final x.state
        then pure Attempt.skipped
        else (do endpoint ← gets (get_endpoint x.endpoint_id); open_attempt x endpoint)

  -- the second transaction after an HTTP error: `x` is the job's object, `found` the row that is locked
  unfoldable pub record_failure :
      ℕ → WebhookDelivery → String → Option WebhookDelivery → Action Outcome
  unfolding update_delivery flush_changes
  record_failure delivery_id x reason none = pure Outcome.skipped
  record_failure delivery_id x reason (some row) = do
    instant ← now
    write (update_delivery delivery_id (flush_changes x (fail instant reason x)))
    pure (if is_exhausted x then Outcome.dead else Outcome.retry)

  unfoldable pub finish_failed : ℕ → WebhookDelivery → String → Action Outcome
  unfolding get_delivery record_failure
  finish_failed delivery_id x reason = do
    found ← gets (get_delivery delivery_id)
    record_failure delivery_id x reason found

  -- the second transaction after a response; without a row, the UPDATE changes none
  unfoldable pub finish_delivered : ℕ → WebhookDelivery → ℕ → Action Outcome
  unfolding update_delivery flush_changes
  finish_delivered delivery_id x status = do
    write (update_delivery delivery_id (flush_changes x (deliver status x)))
    pure Outcome.delivered

  unfoldable pub finish : ℕ → WebhookDelivery → HttpOutcome → Action Outcome
  unfolding finish_failed finish_delivered
  finish delivery_id x (response status) = finish_delivered delivery_id x status
  finish delivery_id x (http_error reason) = finish_failed delivery_id x reason

  -- record_webhook_delivery(...) and record_background_job("webhook_delivery", ...)
  unfoldable pub report : Outcome → Action ⊤
  report Outcome.skipped = do
    count_metric "webhook_delivery" "skipped"
    count_metric "webhook_delivery_job" "skipped"
  report Outcome.dead = do
    count_metric "webhook_delivery" "dead"
    count_metric "webhook_delivery_job" "dead"
  report Outcome.delivered = do
    count_metric "webhook_delivery" "delivered"
    count_metric "webhook_delivery_job" "success"
  report Outcome.retry = do
    count_metric "webhook_delivery" "retry"
    count_metric "webhook_delivery_job" "retry"

  -- what the job does after its first transaction
  unfoldable pub attempt_post : ℕ → HttpOutcome → Attempt → Action Outcome
  unfolding finish request report
  attempt_post delivery_id http Attempt.skipped = do report Outcome.skipped; pure Outcome.skipped
  attempt_post delivery_id http Attempt.dead = pure Outcome.dead
  attempt_post delivery_id http (Attempt.post e x) = do
    outcome ← request (finish delivery_id x http)
    report outcome
    pure outcome

  -- `run`: the two transactions, with the outcome of the POST given
  unfoldable pub run : ℕ → HttpOutcome → Action Outcome
  unfolding begin_attempt attempt_post request
  run delivery_id http = do
    attempt ← request (begin_attempt delivery_id)
    attempt_post delivery_id http attempt

-- self.retry(countdown=min(300, 2 ** self.request.retries * 5))
unfoldable pub retry_countdown : ℕ → ℕ
retry_countdown retries = min 300 (2 ^ retries * 5)
