-- ===== src/Examples/Checkout.antt =====
-- A checkout under a repeated key at work: Stripe answers another session to the second request.
use tenantflow_api.Prelude.{◌≡◌, refl, String, none}
use tenantflow_api.Core.Errors.{ok, err, conflict_error}
use tenantflow_api.Core.Permissions.{owner}
use tenantflow_api.Core.Dependencies.{OrganizationContext, require_permission}
use tenantflow_api.Db.Session.{Platform, World, request}
use tenantflow_api.Billing.Router.{Stripe, HostedSession, CheckoutRequest, checkout}
use tenantflow_api.Billing.Replay.{checkout_replayed}
use tenantflow_api.Examples.World.{demo, alice, owner_of_acme, start, at}

abbrev session : String → HostedSession
session id = record { id = id; url = "https://checkout.example" }

abbrev stripe : String → Stripe
stripe id = record {
  checkout = λ o customer price success cancel key. ok (session id);
  portal = λ customer return_url. ok (session id);
  construct_event = λ body signature. ok none;
}

abbrev order : String → CheckoutRequest
order plan = record { plan = plan; success_url = "https://a"; cancel_url = "https://b" }

abbrev context : OrganizationContext
context = record { user = alice; membership = owner_of_acme }

abbrev after : World
after = (request (checkout ⦃p = demo⦄ (stripe "cs_1") 10 (order "pro") "key-0001" "alice") start).1

-- another plan under the same key
reused :
    (request
      (checkout ⦃p = demo⦄ (stripe "cs_2") 10 (order "business") "key-0001" "alice")
      (at 50 after.db)).0
    ≡ err (
        conflict_error "IDEMPOTENCY_KEY_REUSED"
          "Idempotency-Key was already used with a different request payload")
unfolding request checkout tenantflow_api.Db.Session.◌>>=◌ tenantflow_api.Prelude.scalar
    tenantflow_api.Core.Permissions.has_permission tenantflow_api.Prelude.exists
    tenantflow_api.Db.Constraints.subscription_fits tenantflow_api.Prelude.update
reused = refl

checkout_replayed_example :
    let (r, w) =
      request
        (checkout ⦃p = demo⦄ (stripe "cs_2") 10 (order "pro") "key-0001" "alice")
        (at 50 after.db) in
    (r ≡ ok (session "cs_1")) × (w.db ≡ after.db)
unfolding require_permission tenantflow_api.Db.Session.◌>>=◌ tenantflow_api.Prelude.scalar
    tenantflow_api.Core.Permissions.has_permission request checkout tenantflow_api.Prelude.exists
    tenantflow_api.Db.Constraints.subscription_fits
checkout_replayed_example =
    checkout_replayed ⦃p = demo⦄ (stripe "cs_1") (stripe "cs_2") 10 (order "pro") (order "pro")
      "key-0001" "alice" "alice" start (at 1 start.db) after (at 50 after.db) (at 51 after.db)
      context context (session "cs_1") refl refl refl refl refl refl
