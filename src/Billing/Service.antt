-- ===== src/Billing/Service.antt =====
-- app/modules/billing/service.py. The Stripe client is the record `Stripe`; an event is the
-- fields that the code reads of the dictionary, an absent or empty one being `none`.
use text.Mathlib.Text.{starts_with}
use tenantflow_api.Prelude.{
  not, ℕ, ◌==◌, String, Bool, true, false, Option, none, some, [], ◌∷◌, ◌++◌, str_eq, holds_text,
  scalar, exists, update, if◌then◌else◌, ⊤,
}
use tenantflow_api.Core.Errors.{Error, Result, ok, err}
use tenantflow_api.Core.Config.{Settings}
use tenantflow_api.Db.Json.{end, field, str}
use tenantflow_api.Db.Models.{
  Database, Plan, pro, business, free, Subscription, SubscriptionStatus, inactive, trialing, active,
  past_due, cancelled, StripeEvent,
}
use tenantflow_api.Db.Constraints.{subscription_fits, subscription_update_fits}
use tenantflow_api.Db.Session.{
  Platform, Action, pure, gets, lift, flush, count_metric, now, new_uuid, ◌>>=◌, ◌>>◌,
}
use tenantflow_api.Audit.{record_audit}

-- the text of an organization id: a UUID, or one that UUID() refuses
pub data OrganizationRef : Type 0 where
  uuid : ℕ → OrganizationRef
  malformed : OrganizationRef

-- event["data"]["object"]
pub record StripeObject : Type 0 where
  pub id : Option String
  pub customer : Option String
  pub metadata_organization_id : Option OrganizationRef
  pub client_reference_id : Option OrganizationRef
  pub status : Option String
  pub price_id : Option String
  pub current_period_end : Option ℕ

pub record Event : Type 0 where
  pub id : String
  pub type : String
  pub object : StripeObject

-- ALLOWED_STRIPE_SUBSCRIPTION_STATES.get(raw_status, "inactive")
unfoldable pub local_status : String → SubscriptionStatus
local_status s =
    if str_eq s "trialing"
    then trialing
    else if str_eq s "active"
    then active
    else if str_eq s "past_due"
    then past_due
    else if str_eq s "unpaid"
    then past_due
    else if str_eq s "canceled"
    then cancelled
    else inactive

-- str(obj.get("status", "inactive"))
abbrev pub status_of : Option String → SubscriptionStatus
status_of none = local_status "inactive"
status_of (some s) = local_status s

-- the plan of a price, or the plan as it was
unfoldable pub plan_of : Settings → Option String → Plan → Plan
plan_of s price old =
    if holds_text price s.stripe_price_pro
    then pro
    else if holds_text price s.stripe_price_business
    then business
    else old

abbrev pub period_of : Option ℕ → Option ℕ → Option ℕ
period_of none old = old
period_of (some instant) old = some instant

-- what an event writes into the subscription of its organization
unfoldable pub apply_event : Settings → Event → Subscription → Subscription
unfolding local_status plan_of
apply_event s e x =
    if str_eq e.type "checkout.session.completed"
    then record x { stripe_customer_id = (e.object).customer; status = active }
    else if starts_with e.type "customer.subscription."
    then record x {
      stripe_subscription_id = (e.object).id;
      stripe_customer_id = (e.object).customer;
      status =
          if str_eq e.type "customer.subscription.deleted"
          then cancelled
          else status_of (e.object).status;
      plan = plan_of s (e.object).price_id x.plan;
      current_period_end = period_of (e.object).current_period_end x.current_period_end;
    }
    else if str_eq e.type "invoice.payment_failed"
    then record x { status = past_due }
    else x

abbrev pub insert_subscription : Subscription → Database → Database
insert_subscription r d = record d { subscriptions = d.subscriptions ++ r ∷ [] }

abbrev pub has_subscription_id : ℕ → Subscription → Bool
has_subscription_id k x = x.id == k

unfoldable pub update_subscription : ℕ → (Subscription → Subscription) → Database → Database
update_subscription k f d = record d {
  subscriptions = update (has_subscription_id k) f d.subscriptions;
}

unfoldable pub find_subscription : ℕ → Database → Option Subscription
find_subscription o d = scalar (λ (x : Subscription). x.organization_id == o) d.subscriptions

unfoldable pub find_customer : String → Database → Option Subscription
find_customer customer d =
    scalar (λ (x : Subscription). holds_text x.stripe_customer_id customer) d.subscriptions

unfoldable pub seen_event : String → Database → Bool
seen_event event_id d =
    exists (λ (x : StripeEvent). str_eq x.stripe_event_id event_id) d.stripe_events

-- the primary key of the marker, whose event id is new
unfoldable pub stripe_event_fits : StripeEvent → Database → Bool
stripe_event_fits r d = not (exists (λ (x : StripeEvent). x.id == r.id) d.stripe_events)

abbrev pub insert_stripe_event : StripeEvent → Database → Database
insert_stripe_event r d = record d { stripe_events = d.stripe_events ++ r ∷ [] }

-- UUID(str(org_id_raw)) raises ValueError
abbrev pub parse_ref : OrganizationRef → Result (Option ℕ)
parse_ref (uuid k) = ok (some k)
parse_ref malformed = err (Error.value_error "badly formed hexadecimal UUID string")

abbrev pub organization_of : Option Subscription → Option ℕ
organization_of none = none
organization_of (some x) = some x.organization_id

abbrev pub by_customer : Option String → Database → Option ℕ
by_customer none d = none
by_customer (some c) d = organization_of (find_customer c d)

-- `metadata.get("organization_id") or obj.get("client_reference_id")`
abbrev pub first_ref : Option OrganizationRef → Option OrganizationRef → Option OrganizationRef
first_ref (some r) other = some r
first_ref none other = other

unfoldable pub resolve_ref : Option OrganizationRef → Option String → Database → Result (Option ℕ)
unfolding find_customer
resolve_ref (some r) customer d = parse_ref r
resolve_ref none customer d = ok (by_customer customer d)

unfoldable pub resolve_organization_id : StripeObject → Action (Option ℕ)
unfolding resolve_ref
resolve_organization_id x = do
  resolved ←
      gets (resolve_ref (first_ref x.metadata_organization_id x.client_reference_id) x.customer)
  lift resolved

module _ ⦃p : Platform⦄ where
  unfoldable pub create_if_absent : ℕ → Option Subscription → Action Subscription
  create_if_absent organization_id (some x) = pure x
  create_if_absent organization_id none = do
    created_at ← now
    id ← new_uuid
    let subscription : Subscription = record {
      id = id;
      created_at = created_at;
      organization_id = organization_id;
      plan = free;
      status = inactive;
      stripe_customer_id = none;
      stripe_subscription_id = none;
      current_period_end = none;
    }
    flush (λ d. subscription_fits d subscription) (insert_subscription subscription)
    pure subscription

  unfoldable pub get_or_create_subscription : ℕ → Action Subscription
  unfolding find_subscription create_if_absent
  get_or_create_subscription organization_id = do
    found ← gets (find_subscription organization_id)
    create_if_absent organization_id found

  unfoldable pub synchronize : Event → ℕ → Option ℕ → Action ⊤
  unfolding get_or_create_subscription update_subscription apply_event record_audit
  synchronize event marker none = pure tt
  synchronize event marker (some organization_id) = do
    subscription ← get_or_create_subscription organization_id
    let changed = apply_event p.settings event subscription
    flush (λ d. subscription_update_fits d changed)
        (update_subscription subscription.id (apply_event p.settings event))
    record_audit organization_id none "billing.stripe_event_processed" "stripe_event" (some marker)
        (field "stripe_event_id" (str event.id) (field "event_type" (str event.type) end))
    pure tt

  -- the marker of the event is new: the event is processed
  unfoldable pub process_new : Event → Action Bool
  unfolding resolve_organization_id synchronize stripe_event_fits
  process_new event = do
    processed_at ← now
    marker ← new_uuid
    let row : StripeEvent = record {
      id = marker;
      stripe_event_id = event.id;
      event_type = event.type;
      processed_at = processed_at;
    }
    flush (stripe_event_fits row) (insert_stripe_event row)
    organization_id ← resolve_organization_id event.object
    synchronize event marker organization_id
    count_metric "stripe_webhook_events" "processed"
    pure true

  -- INSERT ... ON CONFLICT DO NOTHING on the event id
  unfoldable pub process_stripe_event : Event → Action Bool
  unfolding seen_event process_new
  process_stripe_event event = do
    duplicate ← gets (seen_event event.id)
    if duplicate
        then (do count_metric "stripe_webhook_events" "duplicate"; pure false)
        else process_new event
