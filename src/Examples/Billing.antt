-- ===== src/Examples/Billing.antt =====
-- A Stripe event at work.
use tenantflow_api.Db.Models.{Subscription, active}
use tenantflow_api.Billing.Checkout.{checkout_completed}
use tenantflow_api.Billing.Effect.{Was}
use tenantflow_api.Billing.Kinds.{Becomes, processed_lem}
use tenantflow_api.Prelude.{ℕ, ◌≡◌, refl, String, true, false, none, some, List, [], ◌∷◌, arith}
use tenantflow_api.Core.Errors.{ok}
use tenantflow_api.Db.Session.{World, request}
use tenantflow_api.Billing.Service.{
  Event, OrganizationRef, process_stripe_event, seen_event, find_subscription,
}
use tenantflow_api.Billing.Once.{processed_once}
use tenantflow_api.Examples.World.{demo, start}

abbrev completed : Event
completed = record {
  id = "evt_1";
  type = "checkout.session.completed";
  object = record {
    id = some "cs_1";
    customer = some "cus_1";
    metadata_organization_id = some (OrganizationRef.uuid 10);
    client_reference_id = none;
    status = none;
    price_id = none;
    current_period_end = none;
  };
}

abbrev after : World
after = (request (process_stripe_event ⦃p = demo⦄ completed) start).1

processed_once_example :
    ((process_stripe_event ⦃p = demo⦄ completed after).0 ≡ ok false)
    × ((process_stripe_event ⦃p = demo⦄ completed after).1.db ≡ after.db)
unfolding process_stripe_event request tenantflow_api.Db.Session.◌>>=◌ tenantflow_api.Prelude.exists
    tenantflow_api.Prelude.scalar tenantflow_api.Db.Constraints.subscription_fits
    tenantflow_api.Db.Constraints.subscription_update_fits
processed_once_example = processed_once ⦃p = demo⦄ completed start after after true refl refl

processed_lem_example :
    (x y : Subscription) × Was (find_subscription 10 start.db) x
    × (find_subscription 10 after.db ≡ some y)
    × Becomes demo.settings completed x y
unfolding process_stripe_event request seen_event tenantflow_api.Db.Session.◌>>=◌
    tenantflow_api.Prelude.exists tenantflow_api.Prelude.scalar
    tenantflow_api.Db.Constraints.subscription_fits
    tenantflow_api.Db.Constraints.subscription_update_fits
processed_lem_example = processed_lem ⦃p = demo⦄ completed 10 start after true refl refl refl

checkout_completed_example :
    (x : Subscription) × (find_subscription 10 after.db ≡ some x)
    × (x.status ≡ active)
    × (x.stripe_customer_id ≡ some "cus_1")
unfolding process_stripe_event request seen_event tenantflow_api.Db.Session.◌>>=◌
    tenantflow_api.Prelude.exists tenantflow_api.Prelude.scalar
    tenantflow_api.Db.Constraints.subscription_fits
    tenantflow_api.Db.Constraints.subscription_update_fits
    tenantflow_api.Billing.Client.checkout_params
checkout_completed_example =
    checkout_completed ⦃p = demo⦄ 10 none "price_pro" "https://a" "https://b" completed start after
      true refl refl refl refl
