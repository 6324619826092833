-- ===== src/Webhooks/Events/Keeps.antt =====
-- What `emit_event` keeps: every property that a new delivery keeps.
use tenantflow_api.Prelude.{
  ℕ, ◌≡◌, true, subst, ⊤, String, List, [], ◌∷◌, All, All-of, Bool-cases, inl, inr,
}
use tenantflow_api.Db.Json.{Fields}
use tenantflow_api.Db.Models.{Database, WebhookEndpoint, WebhookDelivery}
use tenantflow_api.Db.Constraints.{webhook_delivery_fits}
use tenantflow_api.Db.Session.{Platform}
use tenantflow_api.Db.Session.Triple.{
  Keeps, Triple-bind, Triple-pure, Triple-gets, Triple-flush, Keeps-now, Keeps-new_uuid,
  Keeps-publish,
}
use tenantflow_api.Webhooks.Events.{
  insert_delivery, active_endpoints, subscribes, add_delivery, add_deliveries, publish_deliveries,
  emit_event,
}

-- `Own` says of an endpoint's id that it may get a delivery.
module _ ⦃p : Platform⦄ (P : Database → Type 0) (Own : ℕ → Type 0)
    (stable : (d : Database) (r : WebhookDelivery)
      → Own r.endpoint_id
      → webhook_delivery_fits d r ≡ true
      → P d
      → P (insert_delivery r d)) where
  add_delivery-Keeps :
      (event_id : ℕ) (event_type : String) (payload : Fields) (e : WebhookEndpoint)
      → Own e.id
      → Keeps P (add_delivery event_id event_type payload e)
  unfolding add_delivery
  add_delivery-Keeps event_id event_type payload e own = Triple-bind _ _ (Keeps-now P) λ created_at.
      Triple-bind _ _ (Keeps-new_uuid P) λ id.
        Triple-bind _ _ (Triple-flush _ _ (λ w h fits. stable w.db _ own fits h))
          λ _. Triple-pure _ (λ w h. h)

  add_deliveries-Keeps :
      (event_id : ℕ) (event_type : String) (payload : Fields) (es : List WebhookEndpoint)
      → All (λ e. Own e.id) es
      → Keeps P (add_deliveries event_id event_type payload es)
  unfolding add_deliveries
  add_deliveries-Keeps event_id event_type payload [] owns = Triple-pure _ (λ w h. h)
  add_deliveries-Keeps event_id event_type payload (e ∷ es) owns =
      let rest = add_deliveries-Keeps event_id event_type payload es owns.1 in
      elim (Bool-cases (subscribes event_type e)) [
        | inl hit ↦ rw hit (
            Triple-bind _ _ (add_delivery-Keeps event_id event_type payload e owns.0)
              λ id. Triple-bind _ _ rest λ ids. Triple-pure _ (λ w h. h))
        | inr miss ↦ rw miss rest
      ]

  publish_deliveries-Keeps : (ids : List ℕ) → Keeps P (publish_deliveries ids)
  unfolding publish_deliveries
  publish_deliveries-Keeps [] = Triple-pure _ (λ w h. h)
  publish_deliveries-Keeps (id ∷ ids) =
      Triple-bind _ _ (Keeps-publish P _) λ _. publish_deliveries-Keeps ids

  pub emit_owned-Keeps :
      (o : ℕ) (event_type : String) (payload : Fields)
      → ((d : Database) → P d → All (λ e. Own e.id) (active_endpoints o d))
      → Keeps P (emit_event o event_type payload)
  unfolding emit_event
  emit_owned-Keeps o event_type payload owns = Triple-bind _ _ (Keeps-new_uuid P) λ event_id.
      Triple-bind _ _ (Triple-gets _ (active_endpoints o)) λ es.
        Triple-bind {Q = λ _ w. P w.db} _ _
          (record {
            at = λ w h.
                (add_deliveries-Keeps event_id event_type payload es
                    (subst (All (λ e. Own e.id)) h.1 (owns w.db h.0))).at
                  w h.0;
          })
          λ ids. Triple-bind _ _ (publish_deliveries-Keeps ids) λ _. Triple-pure _ (λ w h. h)

module _ ⦃p : Platform⦄ (P : Database → Type 0)
    (stable : (d : Database) (r : WebhookDelivery) → P d → P (insert_delivery r d)) where
  pub emit_event-Keeps :
      (o : ℕ) (event_type : String) (payload : Fields) → Keeps P (emit_event o event_type payload)
  emit_event-Keeps o event_type payload =
      emit_owned-Keeps P (λ k. ⊤) (λ d r own fits h. stable d r h) o event_type payload
        (λ d h. All-of (λ e. ⊤) (λ e. tt) (active_endpoints o d))
