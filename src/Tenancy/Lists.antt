-- ===== src/Tenancy/Lists.antt =====
-- app/modules/audit/router.py and webhooks/router.py: what their lists show.
use tenantflow_api.Prelude.{
  ℕ, ◌≡◌, refl, ◌∙◌, sym, ap, subst, String, ◌&&◌, Option, List, leb, take, select, order_by,
}
use tenantflow_api.Core.Errors.{ok}
use tenantflow_api.Core.Permissions.{webhook_manage}
use tenantflow_api.Core.Listing.{IsNewest, listing_lem}
use tenantflow_api.Db.Models.{Database, WebhookDelivery, DeliveryState}
use tenantflow_api.Db.Session.{Platform, World, request}
use tenantflow_api.Db.Session.Triple.{
  Triple, Triple-bind, Triple-gets, Triple-raise_if, Triple-run, request_returns, Triple-after,
}
use tenantflow_api.Access.{require_permission-Keeps}
use tenantflow_api.Webhooks.Router.{delivery_in, state_passes, list_deliveries}

module _ ⦃p : Platform⦄ (o limit : ℕ) (token : String) where
  -- the SELECT of `list_deliveries`
  abbrev delivery_rows : Option DeliveryState → Database → List WebhookDelivery
  delivery_rows state d = take limit (
      order_by (λ (a b : WebhookDelivery). leb b.created_at a.created_at)
        (select (λ x. delivery_in o d x && state_passes state x) d.webhook_deliveries))

  deliveries_lem :
      (state : Option DeliveryState) (d : Database)
      → Triple
          (λ w. w.db ≡ d)
          (list_deliveries o state limit token)
          (λ shown w. (w.db ≡ d) × (shown ≡ delivery_rows state d))
  unfolding list_deliveries
  deliveries_lem state d =
      Triple-bind _ _ (require_permission-Keeps (λ c. c ≡ d) webhook_manage o token) λ _.
        Triple-bind _ _ (Triple-raise_if _ _ _) λ _.
          Triple-after (λ shown w h. ((h.0).0, sym h.1 ∙ ap (delivery_rows state) (h.0).0))
            (Triple-gets _ (delivery_rows state))

  -- The deliveries that are listed go to endpoints of the organization and are in the state that was
  -- asked for, the newest first, as many as the limit or all; a delivery that is left out is not newer
  -- than any that is shown; and nothing is written.
  pub list_deliveries_lem :
      (state : Option DeliveryState) (w v : World) (shown : List WebhookDelivery)
      → request (list_deliveries o state limit token) w ≡ (ok shown, v)
      → (v.db ≡ w.db)
        × IsNewest
            (λ (x : WebhookDelivery). x.created_at)
            (λ x. delivery_in o w.db x && state_passes state x)
            limit
            w.db.webhook_deliveries
            shown
  list_deliveries_lem state w v shown e =
      let h =
        Triple-run (deliveries_lem state w.db) w v shown refl (request_returns _ w v shown e) in
      let at = λ (x : WebhookDelivery). x.created_at in
      let passes = λ (x : WebhookDelivery). delivery_in o w.db x && state_passes state x in
      let table = w.db.webhook_deliveries in
      (
        h.0,
        subst (λ rows. IsNewest at passes limit table rows) (sym h.1)
            (listing_lem at passes limit table),
      )
