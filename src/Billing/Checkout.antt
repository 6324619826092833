-- ===== src/Billing/Checkout.antt =====
-- app/integrations/stripe_client.py and modules/billing/service.py: a checkout and the event that
-- Stripe sends when it is completed.
use tenantflow_api.Prelude.{ℕ, ◌≡◌, refl, ap, String, Bool, true, false, Option, some, str_eq}
use tenantflow_api.Core.Errors.{ok}
use tenantflow_api.Core.Config.{Settings}
use tenantflow_api.Db.Models.{Subscription, active}
use tenantflow_api.Db.Session.{Platform, World, request}
use tenantflow_api.Billing.Service.{
  Event, OrganizationRef, first_ref, apply_event, find_subscription, seen_event,
  process_stripe_event,
}
use tenantflow_api.Billing.Client.{checkout_params}
use tenantflow_api.Billing.Effect.{applied_lem}

completed_lem :
    (s : Settings) (e : Event) (x : Subscription)
    → str_eq e.type "checkout.session.completed" ≡ true
    → ((apply_event s e x).status ≡ active)
      × ((apply_event s e x).stripe_customer_id ≡ (e.object).customer)
unfolding apply_event
completed_lem s e x h = rw h (refl, refl)

-- When Stripe reports that a checkout is completed, with the metadata that the program gave it, and the
-- event is new and its processing returns, the organization that the checkout was created for has an
-- active subscription of the customer of the event.
pub checkout_completed :
    ⦃p : Platform⦄
    → (o : ℕ) (customer_id : Option String) (price_id success_url cancel_url : String) (e : Event)
      (w v : World) (fresh : Bool)
    → let params = checkout_params o customer_id price_id success_url cancel_url in
      (e.object).metadata_organization_id
        ≡ some (OrganizationRef.uuid params.metadata_organization_id)
      → str_eq e.type "checkout.session.completed" ≡ true
      → seen_event e.id w.db ≡ false
      → request (process_stripe_event e) w ≡ (ok fresh, v)
      → (x : Subscription) × (find_subscription o v.db ≡ some x)
        × (x.status ≡ active)
        × (x.stripe_customer_id ≡ (e.object).customer)
unfolding checkout_params
checkout_completed ⦃p⦄ o customer_id price_id success_url cancel_url e w v fresh carried kind unseen
      ran =
    let named = ap (λ r. first_ref r (e.object).client_reference_id) carried in
    let (x, was, found) = applied_lem e o w v fresh named unseen ran in
    let (status, customer) = completed_lem p.settings e x kind in
    (apply_event p.settings e x, found, status, customer)
