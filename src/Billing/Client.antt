-- ===== src/Billing/Client.antt =====
-- app/integrations/stripe_client.py: the record `Stripe` of the router, filled by the Stripe SDK. The
-- SDK is the record `StripeSdk`; it takes the API key, which the client is made with.
use tenantflow_api.Prelude.{ℕ, String, Option, none, some, str_eq, if◌then◌else◌}
use tenantflow_api.Core.Errors.{Error, Result, ok, err}
use tenantflow_api.Core.Config.{Settings}
use tenantflow_api.Billing.Service.{Event}
use tenantflow_api.Billing.Router.{HostedSession, Stripe}

-- the one line item is `price`, once; the organization's id stands in three places
pub record SessionCreateParams : Type 0 where
  pub mode : String
  pub price : String
  pub quantity : ℕ
  pub success_url : String
  pub cancel_url : String
  pub client_reference_id : ℕ
  pub metadata_organization_id : ℕ
  pub subscription_metadata_organization_id : ℕ
  pub customer : Option String

-- session.url is None for a session that is not hosted
pub record SdkSession : Type 0 where
  pub id : String
  pub url : Option String

-- what construct_event answers or raises
pub data Construction : Type 0 where
  event : Event → Construction
  value_error signature_verification_error : Construction
  other : Error → Construction

-- `create_session` takes the API key, the parameters and the idempotency key; `create_portal` the API
-- key, the customer and the URL; `construct_event` the API key, the payload, the signature and the
-- webhook's secret
pub record StripeSdk : Type 0 where
  pub create_session : String → SessionCreateParams → String → Result SdkSession
  pub create_portal : String → String → String → Result HostedSession
  pub construct_event : String → String → String → String → Construction

-- `if customer_id`: an empty text counts as none
abbrev pub nonempty : Option String → Option String
nonempty none = none
nonempty (some s) = if str_eq s "" then none else some s

unfoldable pub checkout_params : ℕ → Option String → String → String → String → SessionCreateParams
checkout_params organization_id customer_id price_id success_url cancel_url = record {
  mode = "subscription";
  price = price_id;
  quantity = 1;
  success_url = success_url;
  cancel_url = cancel_url;
  client_reference_id = organization_id;
  metadata_organization_id = organization_id;
  subscription_metadata_organization_id = organization_id;
  customer = nonempty customer_id;
}

abbrev pub no_hosted_url : Error
no_hosted_url = Error.runtime_error "Stripe Checkout Session did not return a hosted URL"

abbrev pub hosted_at : String → Option String → Result HostedSession
hosted_at id none = err no_hosted_url
hosted_at id (some url) = ok (record { id = id; url = url })

-- `if not session.url: raise`
abbrev pub hosted : Result SdkSession → Result HostedSession
hosted (err e) = err e
hosted (ok session) = hosted_at session.id (nonempty session.url)

module _ (s : Settings) (sdk : StripeSdk) where
  unfoldable pub create_checkout_session :
      ℕ → Option String → String → String → String → String → Result HostedSession
  unfolding checkout_params
  create_checkout_session organization_id customer_id price_id success_url cancel_url key = hosted (
      sdk.create_session s.stripe_secret_key
        (checkout_params organization_id customer_id price_id success_url cancel_url) key)

  unfoldable pub create_portal_session : String → String → Result HostedSession
  create_portal_session customer_id return_url =
      sdk.create_portal s.stripe_secret_key customer_id return_url

  -- settings.stripe_secret_key or "sk_test_unconfigured"
  abbrev pub api_key : String
  api_key = if str_eq s.stripe_secret_key "" then "sk_test_unconfigured" else s.stripe_secret_key

  -- StripeWebhookVerificationError is `none`, which the router answers with a 400
  abbrev pub verified : Construction → Result (Option Event)
  verified (event e) = ok (some e)
  verified value_error = ok none
  verified signature_verification_error = ok none
  verified (other e) = err e

  unfoldable pub construct_webhook_event : String → String → Result (Option Event)
  construct_webhook_event payload signature =
      verified (sdk.construct_event api_key payload signature s.stripe_webhook_secret)

-- the client that the router calls
unfoldable pub stripe_client : Settings → StripeSdk → Stripe
unfolding create_checkout_session create_portal_session construct_webhook_event
stripe_client s sdk = record {
  checkout = create_checkout_session s sdk;
  portal = create_portal_session s sdk;
  construct_event = construct_webhook_event s sdk;
}
