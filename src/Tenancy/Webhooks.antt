-- ===== src/Tenancy/Webhooks.antt =====
-- Tenant isolation of app/modules/webhooks: endpoints, and the retry of a delivery.
use tenantflow_api.Prelude.{
  ℕ, ◌≡◌, refl, ◌∙◌, true, false, some, arith, All, scalar_passes, ◌==◌, ◌&&◌, outside-append,
  outside-update, owned_row, Unique-insert, Unique-update, and_both,
}
use tenantflow_api.Db.Models.{Database, User, WebhookEndpoint, WebhookDelivery}
use tenantflow_api.Db.Constraints.{webhook_endpoint_clash, webhook_endpoint_fits}
use tenantflow_api.Db.Session.{Platform}
use tenantflow_api.Db.Session.Triple.{
  Keeps, Triple-bind, Triple-pure, Triple-gets, Triple-or_raise, Triple-raise_if, Triple-flush,
  Triple-write, Triple-weaken, Triple-lift, Keeps-now, Keeps-new_uuid, Keeps-new_token,
  Keeps-publish,
}
use tenantflow_api.Webhooks.Targets.{Network}
use tenantflow_api.Webhooks.Service.{
  Cipher, WebhookCreate, insert_endpoint, create_webhook_endpoint,
}
use tenantflow_api.Webhooks.Router.{
  has_endpoint_id, find_endpoint, find_delivery, get_endpoint, deactivate_row, retry_row,
  deactivate, retry, has_delivery_id, delivery_in, to_retry,
}
use tenantflow_api.Webhooks.Owners.{owner_id, delivery-owned}
use tenantflow_api.Tenancy.{Within, IsKeyed, audit-Within}

abbrev owner_of : WebhookEndpoint → ℕ
owner_of e = e.organization_id

Within-insert_endpoint :
    (o : ℕ) (a d : Database) (r : WebhookEndpoint)
    → r.organization_id ≡ o
    → webhook_endpoint_fits d r ≡ true
    → Within o a d
    → Within o a (insert_endpoint r d)
unfolding webhook_endpoint_fits
Within-insert_endpoint o a d r e fits h = (
  ground (arith, outside-append owner_of o d.webhook_endpoints r e),
  assumption (
    h.1,
    Unique-insert (λ (x : WebhookEndpoint). x.id) (webhook_endpoint_clash r) d.webhook_endpoints r
        (λ x same. ground arith) h.1.webhook_endpoints (ground arith),
  ),
)

endpoint_owned :
    (o k : ℕ) (d : Database) (x : WebhookEndpoint)
    → IsKeyed d
    → find_endpoint o k d ≡ some x
    → All
        (λ (e : WebhookEndpoint). has_endpoint_id x.id e ≡ true → e.organization_id ≡ o)
        d.webhook_endpoints
unfolding find_endpoint
endpoint_owned o k d x h e =
    let test = λ (y : WebhookEndpoint). y.id == k && y.organization_id == o in
    owned_row owner_of o (λ y. y.id) test d.webhook_endpoints x h.webhook_endpoints e
      (ground (arith, scalar_passes test d.webhook_endpoints x e))

Within-deactivate_row :
    (o k : ℕ) (a d : Database) (x : WebhookEndpoint)
    → find_endpoint o k d ≡ some x
    → Within o a d
    → Within o a (deactivate_row x.id d)
unfolding deactivate_row
Within-deactivate_row o k a d x e h = (
  ground (
    arith,
    outside-update owner_of o (has_endpoint_id x.id) (λ y. record y { is_active = false })
        (λ y. refl) d.webhook_endpoints (endpoint_owned o k d x h.1 e),
  ),
  assumption (
    h.1,
    Unique-update (λ (y : WebhookEndpoint). y.id) (has_endpoint_id x.id)
        (λ y. record y { is_active = false }) (λ y. refl) d.webhook_endpoints h.1.webhook_endpoints,
  ),
)

Within-retry_row :
    (o k : ℕ) (a d : Database) (x : WebhookDelivery)
    → find_delivery o k d ≡ some x
    → Within o a d
    → Within o a (retry_row x.id d)
unfolding retry_row find_delivery
Within-retry_row o k a d x e h =
    let q = λ (y : WebhookDelivery). y.id == k && delivery_in o d y in
    let mine =
      delivery-owned o a.webhook_endpoints d x h.0.webhook_endpoints h.1.webhook_endpoints
        (and_both (x.id == k) (delivery_in o d x) (scalar_passes q d.webhook_deliveries x e)).1 in
    let owner = λ (y : WebhookDelivery). owner_id o a.webhook_endpoints y.endpoint_id in
    (
      ground (
        arith,
        outside-update owner o (has_delivery_id x.id) to_retry (λ y. refl) d.webhook_deliveries
            (owned_row owner o (λ (y : WebhookDelivery). y.id) q d.webhook_deliveries x
              h.1.webhook_deliveries e mine),
      ),
      assumption (
        h.1,
        Unique-update (λ (y : WebhookDelivery). y.id) (has_delivery_id x.id) to_retry (λ y. refl)
            d.webhook_deliveries h.1.webhook_deliveries,
      ),
    )

module _ ⦃p : Platform⦄ (o : ℕ) (a : Database) where
  pub create_webhook_endpoint-Within :
      (network : Network) (cipher : Cipher) (user_id : ℕ) (payload : WebhookCreate)
      → Keeps (Within o a) (create_webhook_endpoint network cipher o user_id payload)
  unfolding create_webhook_endpoint
  create_webhook_endpoint-Within network cipher user_id payload =
      Triple-bind _ _ (Triple-raise_if _ _ _) λ _. Triple-bind _ _ (Triple-lift _ _) λ _.
        Triple-bind _ _ (Triple-weaken (λ w h. (h.0).0) (Keeps-new_token (Within o a))) λ secret.
          Triple-bind _ _ (Keeps-now (Within o a)) λ created_at.
            Triple-bind _ _ (Keeps-new_uuid (Within o a)) λ id.
              Triple-bind _ _
                (Triple-flush _ _ (λ w h fits. Within-insert_endpoint o a w.db _ refl fits h))
                λ _. Triple-pure _ (λ w h. h)

  pub deactivate-Within :
      (endpoint_id : ℕ) (user : User) → Keeps (Within o a) (deactivate o endpoint_id user)
  unfolding deactivate
  deactivate-Within endpoint_id user =
      Triple-bind _ _ (Triple-gets _ (find_endpoint o endpoint_id)) λ found.
        Triple-bind _ _ (Triple-or_raise _ found _) λ e.
          Triple-bind _ _
            (Triple-write _
              (λ w h. Within-deactivate_row o endpoint_id a w.db e ((h.0).1 ∙ h.1) (h.0).0))
            λ _. Triple-bind _ _ (audit-Within o a _ _ _ _ _) λ _. Triple-pure _ (λ w h. h)

  pub retry-Within : (delivery_id : ℕ) (user : User) → Keeps (Within o a) (retry o delivery_id user)
  unfolding retry
  retry-Within delivery_id user =
      Triple-bind _ _ (Triple-gets _ (find_delivery o delivery_id)) λ found.
        Triple-bind _ _ (Triple-or_raise _ found _) λ x.
          Triple-bind _ _ (Triple-gets _ (get_endpoint x.endpoint_id)) λ e.
            Triple-bind _ _ (Triple-raise_if _ _ _) λ _.
              Triple-bind _ _ (Triple-raise_if _ _ _) λ _.
                Triple-bind _ _
                  (Triple-write _ (λ w h.
                    Within-retry_row o delivery_id a w.db x ((((h.0).0).0).0.1 ∙ (((h.0).0).0).1)
                      (((((h.0).0).0).0).0)))
                  λ _. Triple-bind _ _ (audit-Within o a _ _ _ _ _) λ _.
                    Triple-bind _ _ (Keeps-publish (Within o a) _) λ _. Triple-pure _ (λ w h. h)
