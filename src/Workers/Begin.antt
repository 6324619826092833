-- ===== src/Workers/Begin.antt =====
-- app/workers/tasks.py: what the first transaction of a job leaves of its delivery.
use tenantflow_api.Prelude.{
  ℕ, ◌≡◌, refl, sym, subst, Bool, true, false, Option, none, some, Bool-cases, inl, inr, ⊤,
  if◌then◌else◌,
}
use tenantflow_api.Core.Errors.{Error, Result, ok, err}
use tenantflow_api.Db.Models.{Database, WebhookEndpoint, WebhookDelivery, DeliveryState}
use tenantflow_api.Db.Session.{Platform, World, Action, ◌>>=◌}
use tenantflow_api.Webhooks.Targets.{Network, validate_webhook_target}
use tenantflow_api.Webhooks.Router.{get_endpoint}
use tenantflow_api.Workers.Deliver.{
  Attempt, get_delivery, update_delivery, is_final, close, close_with, count_attempt, open_attempt,
  begin_attempt, check_target,
}
use tenantflow_api.Workers.Attempts.{updated}

module _ ⦃p : Platform⦄ (network : Network) (k : ℕ) where
  -- what the first transaction leaves of the row `x`; an exception is rolled back
  abbrev pub Begun : WebhookDelivery → Result Attempt × World → Type 0
  Begun x (ok (Attempt.post e y), v) =
      (y ≡ count_attempt x)
      × (is_final x.state ≡ false)
      × (get_delivery k v.db ≡ some (count_attempt x))
  Begun x (ok Attempt.dead, v) =
      (is_final x.state ≡ false)
      × (y : WebhookDelivery) × (get_delivery k v.db ≡ some y)
      × (y.state ≡ DeliveryState.dead)
      × (y.attempt_count ≡ x.attempt_count)
  Begun x (ok Attempt.skipped, v) = (is_final x.state ≡ true) × (get_delivery k v.db ≡ some x)
  Begun x (err e, v) = ⊤

  -- writing the row by its own id
  pub written :
      (f : WebhookDelivery → WebhookDelivery) (d : Database) (x : WebhookDelivery)
      → ((y : WebhookDelivery) → (f y).id ≡ y.id)
      → get_delivery k d ≡ some x
      → get_delivery k (update_delivery x.id f d) ≡ some (f x)
  written f d x same h =
      let (own, stored) = updated k f d x same h in
      subst (λ j. get_delivery k (update_delivery j f d) ≡ some (f x)) (sym own) stored

  checked-Begun :
      (e : WebhookEndpoint) (x : WebhookDelivery) (r : Result ⊤) (w : World)
      → get_delivery k w.db ≡ some x
      → is_final x.state ≡ false
      → Begun x (check_target network e x r w)
  unfolding check_target ◌>>=◌
  checked-Begun e x (ok u) w h fresh = (refl, fresh, written count_attempt w.db x (λ y. refl) h)
  checked-Begun e x (err (Error.value_error reason)) w h fresh =
      (fresh, close_with reason x, written (close_with reason) w.db x (λ y. refl) h, refl, refl)
  checked-Begun e x (err (Error.app a b c)) w h fresh = tt
  checked-Begun e x (err (Error.http a b c)) w h fresh = tt
  checked-Begun e x (err Error.integrity) w h fresh = tt
  checked-Begun e x (err Error.validation) w h fresh = tt
  checked-Begun e x (err (Error.runtime_error a)) w h fresh = tt

  either-Begun :
      (x : WebhookDelivery) (b : Bool) (m m' : Action Attempt) (w : World)
      → Begun x (m w)
      → Begun x (m' w)
      → Begun x ((if b then m else m') w)
  either-Begun x true m m' w h h' = h
  either-Begun x false m m' w h h' = h'

  open-Begun :
      (x : WebhookDelivery) (found : Option WebhookEndpoint) (w : World)
      → get_delivery k w.db ≡ some x
      → is_final x.state ≡ false
      → Begun x (open_attempt network x found w)
  unfolding open_attempt ◌>>=◌
  open-Begun x none w h fresh = (fresh, close x, written close w.db x (λ y. refl) h, refl, refl)
  open-Begun x (some e) w h fresh =
      either-Begun x e.is_active _ _ w
        (checked-Begun e x (validate_webhook_target p.settings network e.url) w h fresh)
        (fresh, close x, written close w.db x (λ y. refl) h, refl, refl)

  pub begin-Begun :
      (x : WebhookDelivery) (w : World)
      → get_delivery k w.db ≡ some x
      → Begun x (begin_attempt network k w)
  unfolding begin_attempt ◌>>=◌
  begin-Begun x w h = elim (Bool-cases (is_final x.state)) [
    | inl final ↦ rw h (rw final (final, h))
    | inr fresh ↦ rw h (rw fresh (open-Begun x (get_endpoint x.endpoint_id w.db) w h fresh))
  ]
