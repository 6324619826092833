-- ===== src/Billing/Router.antt =====
-- app/modules/billing/router.py, and the checkout and the portal of service.py. The Stripe
-- client, with its signature check, is the record `Stripe`.
use tenantflow_api.Prelude.{ℕ, String, Bool, not, ◌||◌, Option, none, some, str_eq, if◌then◌else◌}
use tenantflow_api.Core.Errors.{Error, Result, conflict_error}
use tenantflow_api.Core.Config.{Settings}
use tenantflow_api.Core.Permissions.{billing_manage}
use tenantflow_api.Core.Dependencies.{require_permission}
use tenantflow_api.Db.Json.{Fields, end, field, str, get_field, as_str}
use tenantflow_api.Db.Models.{User, Scope, Subscription}
use tenantflow_api.Db.Session.{Platform, Action, pure, raise_if, or_raise, lift, ◌>>=◌, ◌>>◌}
use tenantflow_api.Infra.Idempotency.{
  IdempotencyState, canonical_request_hash, acquire_idempotency, complete_idempotency,
}
use tenantflow_api.Organizations.Schemas.{validate_key}
use tenantflow_api.Billing.Service.{Event, get_or_create_subscription, process_stripe_event}

pub record HostedSession : Type 0 where
  pub id : String
  pub url : String

-- `checkout` takes the organization, the customer, the price, the URLs and the idempotency key;
-- `construct_event` takes the raw body and the signature, and answers `none` for what is not Stripe's
pub record Stripe : Type 0 where
  pub checkout : ℕ → Option String → String → String → String → String → Result HostedSession
  pub portal : String → String → Result HostedSession
  pub construct_event : String → String → Result (Option Event)

-- the pattern ^(pro|business)$
pub record CheckoutRequest : Type 0 where
  pub plan : String
  pub success_url : String
  pub cancel_url : String

abbrev pub valid_plan : String → Bool
valid_plan s = str_eq s "pro" || str_eq s "business"

abbrev pub dump_checkout_request : CheckoutRequest → Fields
dump_checkout_request c =
    field "plan" (str c.plan)
      (field "success_url" (str c.success_url) (field "cancel_url" (str c.cancel_url) end))

abbrev pub dump_checkout : HostedSession → Fields
dump_checkout s = field "session_id" (str s.id) (field "checkout_url" (str s.url) end)

abbrev pub checkout_of : Option String → Option String → Option HostedSession
checkout_of (some i) (some u) = some (record { id = i; url = u })
checkout_of _ _ = none

unfoldable pub validate_checkout : Fields → Option HostedSession
unfolding get_field
validate_checkout b =
    checkout_of (as_str (get_field "session_id" b)) (as_str (get_field "checkout_url" b))

-- settings.stripe_price_pro if plan == "pro" else settings.stripe_price_business
abbrev pub price_of : Settings → String → String
price_of s plan = if str_eq plan "pro" then s.stripe_price_pro else s.stripe_price_business

abbrev pub checkout_scope : ℕ → User → Scope
checkout_scope o u = record { action = "billing:checkout"; organization = some o; user = u.id }

module _ ⦃p : Platform⦄ (stripe : Stripe) where
  unfoldable pub create_billing_checkout : ℕ → CheckoutRequest → String → Action HostedSession
  unfolding get_or_create_subscription
  create_billing_checkout organization_id payload idempotency_key = do
    raise_if (str_eq p.settings.stripe_secret_key "")
        (conflict_error "STRIPE_NOT_CONFIGURED" "Stripe test mode is not configured")
    let price_id = price_of p.settings payload.plan
    raise_if (str_eq price_id "")
        (conflict_error "STRIPE_PRICE_NOT_CONFIGURED" "Stripe price for the plan is not configured")
    subscription ← get_or_create_subscription organization_id
    lift (
        stripe.checkout organization_id subscription.stripe_customer_id price_id payload.success_url
          payload.cancel_url idempotency_key)

  unfoldable pub create_billing_portal : ℕ → String → Action HostedSession
  unfolding get_or_create_subscription
  create_billing_portal organization_id return_url = do
    raise_if (str_eq p.settings.stripe_secret_key "")
        (conflict_error "STRIPE_NOT_CONFIGURED" "Stripe test mode is not configured")
    subscription ← get_or_create_subscription organization_id
    customer ← or_raise subscription.stripe_customer_id (
        conflict_error "STRIPE_CUSTOMER_UNAVAILABLE"
          "Complete a Stripe Checkout session before opening the customer portal")
    lift (stripe.portal customer return_url)

  -- the branches of `checkout` after the key is acquired
  unfoldable pub checkout_once :
      ℕ → CheckoutRequest → String → IdempotencyState → Action HostedSession
  unfolding create_billing_checkout complete_idempotency validate_checkout
  checkout_once organization_id payload idempotency_key state = elim state.replay_status [
    | none ↦ do
      session ← create_billing_checkout organization_id payload idempotency_key
      complete_idempotency state.record_id 201 (dump_checkout session)
      pure session
    | some _ ↦ do
      body ←
          or_raise state.replay_body (
            Error.runtime_error "Completed billing idempotency record is missing its response body")
      or_raise (validate_checkout body) Error.validation
  ]

  unfoldable pub checkout : ℕ → CheckoutRequest → String → String → Action HostedSession
  unfolding checkout_once validate_key require_permission acquire_idempotency canonical_request_hash
  checkout organization_id payload idempotency_key token = do
    context ← require_permission billing_manage organization_id token
    validate_key idempotency_key
    raise_if (not (valid_plan payload.plan)) Error.validation
    let request_hash = canonical_request_hash (dump_checkout_request payload)
    state ←
        acquire_idempotency context.user.id (some organization_id)
          (checkout_scope organization_id context.user) idempotency_key request_hash
    checkout_once organization_id payload idempotency_key state

  unfoldable pub portal : ℕ → String → String → Action HostedSession
  unfolding create_billing_portal require_permission
  portal organization_id return_url token = do
    require_permission billing_manage organization_id token
    create_billing_portal organization_id return_url

  unfoldable pub subscription_status : ℕ → String → Action Subscription
  unfolding get_or_create_subscription require_permission
  subscription_status organization_id token = do
    require_permission billing_manage organization_id token
    get_or_create_subscription organization_id

  unfoldable pub stripe_webhook : String → String → Action Bool
  unfolding process_stripe_event
  stripe_webhook body signature = do
    constructed ← lift (stripe.construct_event body signature)
    event ← or_raise constructed (Error.http 400 "Invalid Stripe webhook" none)
    process_stripe_event event
