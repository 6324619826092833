-- ===== src/Webhooks/Fanout.antt =====
-- app/modules/webhooks/events.py: to which endpoints an event goes.
use tenantflow_api.Prelude.{
  ℕ, ◌≡◌, refl, ◌∙◌, sym, ap, String, List, [], ◌∷◌, ◌++◌, map, select, exists, none, str_eq, Bool,
  ◌&&◌, ◌==◌, arith, Bool-cases, inl, inr,
}
use tenantflow_api.Core.Errors.{ok}
use tenantflow_api.Db.Json.{Fields, obj, field, str, uuid, end}
use tenantflow_api.Db.Models.{Database, WebhookEndpoint, WebhookDelivery, DeliveryState}
use tenantflow_api.Db.Session.{Platform, World, request}
use tenantflow_api.Db.Session.Triple.{
  Keeps, Triple, Triple-bind, Triple-pure, Triple-gets, Triple-flush, Triple-after, Triple-run,
  Keeps-now, Keeps-new_uuid, Keeps-publish, request_returns,
}
use tenantflow_api.Webhooks.Events.{
  active_endpoints, subscribes, add_delivery, add_deliveries, publish_deliveries, emit_event,
}

-- a delivery without its own id and time
abbrev pub told : WebhookDelivery → WebhookDelivery
told x = record x { id = 0; created_at = 0 }

abbrev pub addressed : Database → List WebhookDelivery
addressed d = map told d.webhook_deliveries

-- what an endpoint is told of an event
abbrev pub notice : ℕ → String → Fields → WebhookEndpoint → WebhookDelivery
notice event_id event_type payload e = record {
  id = 0;
  created_at = 0;
  event_id = event_id;
  endpoint_id = e.id;
  event_type = event_type;
  payload =
      obj (
        field "id" (uuid event_id)
          (field "type" (str event_type) (field "data" (obj payload) end)));
  state = DeliveryState.pending;
  attempt_count = 0;
  response_status = none;
  last_error = none;
  next_retry_at = none;
}

select_both :
    {A : Type 0} (p q : A → Bool) (xs : List A)
    → select q (select p xs) ≡ select (λ x. p x && q x) xs
unfolding select
select_both p q [] = refl
select_both p q (x ∷ xs) = ground (arith, select_both p q xs)

map-append : {A B : Type 0} (f : A → B) (xs ys : List A) → map f (xs ++ ys) ≡ map f xs ++ map f ys
map-append f [] ys = refl
map-append f (x ∷ xs) ys = ap (λ zs. f x ∷ zs) (map-append f xs ys)

append_assoc : {A : Type 0} (xs ys zs : List A) → (xs ++ ys) ++ zs ≡ xs ++ (ys ++ zs)
append_assoc [] ys zs = refl
append_assoc (x ∷ xs) ys zs = ap (λ t. x ∷ t) (append_assoc xs ys zs)

append_nil : {A : Type 0} (xs : List A) → xs ++ [] ≡ xs
append_nil [] = refl
append_nil (x ∷ xs) = ap (λ t. x ∷ t) (append_nil xs)

module _ ⦃p : Platform⦄ (event_id : ℕ) (event_type : String) (payload : Fields) where
  add_delivery_lem :
      (base : List WebhookDelivery) (e : WebhookEndpoint)
      → Triple
          (λ w. addressed w.db ≡ base)
          (add_delivery event_id event_type payload e)
          (λ _ w. addressed w.db ≡ base ++ notice event_id event_type payload e ∷ [])
  unfolding add_delivery
  add_delivery_lem base e =
      let P = λ (d : Database). addressed d ≡ base in
      Triple-bind _ _ (Keeps-now P) λ created_at. Triple-bind _ _ (Keeps-new_uuid P) λ id.
        Triple-bind _ _
          (Triple-flush
            {Q = λ _ w. addressed w.db ≡ base ++ notice event_id event_type payload e ∷ []} _ _
            (λ w h fits.
              map-append told w.db.webhook_deliveries _
              ∙ ap (λ ks. ks ++ notice event_id event_type payload e ∷ []) h))
          λ _. Triple-pure _ (λ w h. h)

  abbrev chosen : List WebhookEndpoint → List WebhookDelivery
  chosen es = map (notice event_id event_type payload) (select (subscribes event_type) es)

  add_deliveries_lem :
      (es : List WebhookEndpoint) (base : List WebhookDelivery)
      → Triple
          (λ w. addressed w.db ≡ base)
          (add_deliveries event_id event_type payload es)
          (λ _ w. addressed w.db ≡ base ++ chosen es)
  unfolding add_deliveries select
  add_deliveries_lem [] base = Triple-pure _ (λ w h. h ∙ sym (append_nil base))
  add_deliveries_lem (e ∷ es) base = elim (Bool-cases (subscribes event_type e)) [
    | inl y ↦ rw y (
        Triple-bind _ _ (add_delivery_lem base e) λ id.
          Triple-bind _ _
            (add_deliveries_lem es (base ++ notice event_id event_type payload e ∷ []))
            λ ids. Triple-pure _ (λ w h.
              h ∙ append_assoc base (notice event_id event_type payload e ∷ []) (chosen es)))
    | inr n ↦ rw n (add_deliveries_lem es base)
  ]

module _ ⦃p : Platform⦄ where
  publish-Keeps : (P : Database → Type 0) (ids : List ℕ) → Keeps P (publish_deliveries ids)
  unfolding publish_deliveries
  publish-Keeps P [] = Triple-pure _ (λ w h. h)
  publish-Keeps P (id ∷ ids) = Triple-bind _ _ (Keeps-publish P _) λ _. publish-Keeps P ids

  -- the rows that an event adds
  abbrev pub announced : ℕ → ℕ → String → Fields → Database → List WebhookDelivery
  announced o event_id event_type payload d = map (notice event_id event_type payload) (
      select
        (λ (e : WebhookEndpoint).
          (e.organization_id == o && e.is_active)
          && exists (λ (s : String). str_eq s event_type) e.events)
        d.webhook_endpoints)

  chosen_lem :
      (o event_id : ℕ) (event_type : String) (payload : Fields) (d : Database)
      → chosen event_id event_type payload (active_endpoints o d)
        ≡ announced o event_id event_type payload d
  unfolding active_endpoints subscribes
  chosen_lem o event_id event_type payload d = ap (map (notice event_id event_type payload)) (
      select_both (λ (e : WebhookEndpoint). e.organization_id == o && e.is_active)
        (λ e. exists (λ (s : String). str_eq s event_type) e.events) d.webhook_endpoints)

  -- An event that was emitted has added, behind the deliveries that were there, one for each endpoint of
  -- its organization that is active and lists its type, and no other; each is pending, with no attempt,
  -- and carries the event.
  pub emit_event_lem :
      (o event_id : ℕ) (event_type : String) (payload : Fields) (w v : World)
      → request (emit_event o event_type payload) w ≡ (ok event_id, v)
      → addressed v.db ≡ addressed w.db ++ announced o event_id event_type payload w.db
  unfolding emit_event
  emit_event_lem o event_id event_type payload w v e =
      let P = λ (d : Database). d ≡ w.db in
      let t : Triple (λ u. P u.db) (emit_event o event_type payload)
          (λ k u. addressed u.db ≡ addressed w.db ++ announced o k event_type payload w.db) =
        Triple-bind _ _ (Keeps-new_uuid P) λ k.
          Triple-bind _ _ (Triple-gets (λ u. P u.db) (active_endpoints o)) λ es.
            Triple-bind _ _
              (record {
                at = λ u h.
                    (Triple-after
                        (λ ids x j.
                          j
                          ∙ ap (λ es. addressed w.db ++ chosen k event_type payload es)
                              (sym h.1 ∙ ap (active_endpoints o) h.0)
                          ∙ ap (λ rs. addressed w.db ++ rs)
                              (chosen_lem o k event_type payload w.db))
                        (add_deliveries_lem k event_type payload es (addressed w.db))).at
                      u (ap addressed h.0);
              })
              λ ids.
                Triple-bind _ _
                  (publish-Keeps
                    (λ d. addressed d ≡ addressed w.db ++ announced o k event_type payload w.db)
                    ids)
                  λ _. Triple-pure _ (λ u h. h) in
      Triple-run t w v event_id refl
        (request_returns (emit_event o event_type payload) w v event_id e)
