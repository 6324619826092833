-- ===== src/Billing/Kinds.antt =====
-- app/modules/billing/service.py: what each kind of Stripe event makes of a subscription.
use text.Mathlib.Text.{starts_with}
use tenantflow_api.Prelude.{
  ℕ, ◌≡◌, ◌≢◌, refl, ◌∙◌, ap, sym, String, Bool, true, false, Option, none, some, [], ◌∷◌, All, ◌⊎◌,
  inl, inr, Bool-cases, str_eq, str_eq→eq, str_eq_refl, holds_text, if◌then◌else◌,
}
use tenantflow_api.Core.Errors.{ok}
use tenantflow_api.Core.Config.{Settings}
use tenantflow_api.Db.Models.{
  Plan, pro, business, Subscription, SubscriptionStatus, inactive, trialing, active, past_due,
  cancelled,
}
use tenantflow_api.Db.Session.{Platform, World, request}
use tenantflow_api.Billing.Service.{
  Event, OrganizationRef, first_ref, local_status, status_of, plan_of, period_of, apply_event,
  find_subscription, seen_event, process_stripe_event,
}
use tenantflow_api.Billing.Effect.{Was, applied_lem}

-- the status that Stripe's word stands for; a word that is not known counts as inactive
pub data LocalStatus : Option String → SubscriptionStatus → Type 0 where
  no_word : LocalStatus none inactive
  says_trialing : (s : String) → s ≡ "trialing" → LocalStatus (some s) trialing
  says_active : (s : String) → s ≡ "active" → LocalStatus (some s) active
  says_past_due : (s : String) → s ≡ "past_due" → LocalStatus (some s) past_due
  says_unpaid : (s : String) → s ≡ "unpaid" → LocalStatus (some s) past_due
  says_canceled : (s : String) → s ≡ "canceled" → LocalStatus (some s) cancelled
  unknown :
      (s : String)
      → All (λ k. s ≢ k) ("trialing" ∷ "active" ∷ "past_due" ∷ "unpaid" ∷ "canceled" ∷ [])
      → LocalStatus (some s) inactive

-- the plan of a price, or the plan as it was
pub data PlanOf (s : Settings) (price : Option String) (old : Plan) : Plan → Type 0 where
  is_pro : price ≡ some s.stripe_price_pro → PlanOf s price old pro
  is_business :
      price ≢ some s.stripe_price_pro
      → price ≡ some s.stripe_price_business
      → PlanOf s price old business
  kept :
      price ≢ some s.stripe_price_pro
      → price ≢ some s.stripe_price_business
      → PlanOf s price old old

-- a time that the event gives, or the time as it was
pub data PeriodOf (old : Option ℕ) : Option ℕ → Option ℕ → Type 0 where
  given : (instant : ℕ) → PeriodOf old (some instant) (some instant)
  not_given : PeriodOf old none old

-- What an event makes of the subscription `x`.
pub data Becomes (s : Settings) (e : Event) (x : Subscription) : Subscription → Type 0 where
  checkout_completed :
      e.type ≡ "checkout.session.completed"
      → Becomes s e x (record x { stripe_customer_id = (e.object).customer; status = active })
  subscription_changed :
      (status : SubscriptionStatus) (plan : Plan) (period : Option ℕ)
      → starts_with e.type "customer.subscription." ≡ true
      → ((e.type ≡ "customer.subscription.deleted") × (status ≡ cancelled))
        ⊎ ((e.type ≢ "customer.subscription.deleted") × LocalStatus (e.object).status status)
      → PlanOf s (e.object).price_id x.plan plan
      → PeriodOf x.current_period_end (e.object).current_period_end period
      → Becomes s e x (record x {
        stripe_subscription_id = (e.object).id;
        stripe_customer_id = (e.object).customer;
        status = status;
        plan = plan;
        current_period_end = period;
      })
  payment_failed :
      e.type ≡ "invoice.payment_failed" → Becomes s e x (record x { status = past_due })
  other_kind :
      e.type ≢ "checkout.session.completed"
      → starts_with e.type "customer.subscription." ≡ false
      → e.type ≢ "invoice.payment_failed"
      → Becomes s e x x

false-true : false ≡ true → ⊥
false-true h = cc

differs : (a b : String) → str_eq a b ≡ false → a ≢ b
differs a b h e = false-true (sym h ∙ ap (λ c. str_eq a c) (sym e) ∙ str_eq_refl a)

holds : (price : Option String) (k : String) → holds_text price k ≡ true → price ≡ some k
holds none k h = absurd (false-true h)
holds (some j) k h = ap some (str_eq→eq j k h)

holds_not : (price : Option String) (k : String) → holds_text price k ≡ false → price ≢ some k
holds_not price k h e = false-true (sym h ∙ ap (λ q. holds_text q k) e ∙ str_eq_refl k)

status-LocalStatus : (word : Option String) → LocalStatus word (status_of word)
unfolding local_status
status-LocalStatus none = LocalStatus.no_word
status-LocalStatus (some s) = elim (Bool-cases (str_eq s "trialing")) [
  | inl y ↦ rw y (LocalStatus.says_trialing s (str_eq→eq s _ y))
  | inr a ↦ elim (Bool-cases (str_eq s "active")) [
    | inl y ↦ rw a (rw y (LocalStatus.says_active s (str_eq→eq s _ y)))
    | inr b ↦ elim (Bool-cases (str_eq s "past_due")) [
      | inl y ↦ rw a (rw b (rw y (LocalStatus.says_past_due s (str_eq→eq s _ y))))
      | inr c ↦ elim (Bool-cases (str_eq s "unpaid")) [
        | inl y ↦ rw a (rw b (rw c (rw y (LocalStatus.says_unpaid s (str_eq→eq s _ y)))))
        | inr d ↦ elim (Bool-cases (str_eq s "canceled")) [
          | inl y ↦ rw a (rw b (rw c (rw d (rw y (LocalStatus.says_canceled s (str_eq→eq s _ y))))))
          | inr f ↦ rw a (
              rw b (
                rw c (
                  rw d (
                    rw f (
                      LocalStatus.unknown s (
                        differs s _ a,
                        (differs s _ b, (differs s _ c, (differs s _ d, (differs s _ f, tt)))),
                      ))))))
        ]
      ]
    ]
  ]
]

plan-PlanOf :
    (s : Settings) (price : Option String) (old : Plan) → PlanOf s price old (plan_of s price old)
unfolding plan_of
plan-PlanOf s price old = elim (Bool-cases (holds_text price s.stripe_price_pro)) [
  | inl y ↦ rw y (PlanOf.is_pro (holds price _ y))
  | inr n ↦ elim (Bool-cases (holds_text price s.stripe_price_business)) [
    | inl y ↦ rw n (rw y (PlanOf.is_business (holds_not price _ n) (holds price _ y)))
    | inr m ↦ rw n (rw m (PlanOf.kept (holds_not price _ n) (holds_not price _ m)))
  ]
]

period-PeriodOf : (given old : Option ℕ) → PeriodOf old given (period_of given old)
period-PeriodOf none old = PeriodOf.not_given
period-PeriodOf (some instant) old = PeriodOf.given instant

apply-Becomes : (s : Settings) (e : Event) (x : Subscription) → Becomes s e x (apply_event s e x)
unfolding apply_event
apply-Becomes s e x = elim (Bool-cases (str_eq e.type "checkout.session.completed")) [
  | inl y ↦ rw y (Becomes.checkout_completed (str_eq→eq e.type _ y))
  | inr a ↦ elim (Bool-cases (starts_with e.type "customer.subscription.")) [
    | inl y ↦ rw a (
        rw y (
          Becomes.subscription_changed _ _ _ y
            (deleted_or (Bool-cases (str_eq e.type "customer.subscription.deleted")))
            (plan-PlanOf s (e.object).price_id x.plan)
            (period-PeriodOf (e.object).current_period_end x.current_period_end)))
    | inr b ↦ elim (Bool-cases (str_eq e.type "invoice.payment_failed")) [
      | inl y ↦ rw a (rw b (rw y (Becomes.payment_failed (str_eq→eq e.type _ y))))
      | inr c ↦ rw a (rw b (rw c (Becomes.other_kind (differs e.type _ a) b (differs e.type _ c))))
    ]
  ]
]
  where
    deleted_or :
        (str_eq e.type "customer.subscription.deleted" ≡ true)
          ⊎ (str_eq e.type "customer.subscription.deleted" ≡ false)
        → let status =
            if str_eq e.type "customer.subscription.deleted"
            then cancelled
            else status_of (e.object).status in
          ((e.type ≡ "customer.subscription.deleted") × (status ≡ cancelled))
          ⊎ ((e.type ≢ "customer.subscription.deleted") × LocalStatus (e.object).status status)
    deleted_or (inl y) = inl (str_eq→eq e.type _ y, rw y refl)
    deleted_or (inr n) = inr (differs e.type _ n, rw n (status-LocalStatus (e.object).status))

-- A Stripe event that is new and names an organization, and whose processing returns, leaves the
-- organization with the subscription that it had, or with the free and inactive one that is made for
-- it, changed as the kind of the event says: an active one of the customer for a completed checkout, the
-- status, plan and period that Stripe tells for a change of the subscription, cancelled when it was
-- deleted, past due for a payment that failed, and as it was for any other kind.
pub processed_lem :
    ⦃p : Platform⦄
    → (e : Event) (o : ℕ) (w v : World) (fresh : Bool)
    → first_ref (e.object).metadata_organization_id (e.object).client_reference_id
      ≡ some (OrganizationRef.uuid o)
    → seen_event e.id w.db ≡ false
    → request (process_stripe_event e) w ≡ (ok fresh, v)
    → (x y : Subscription) × Was (find_subscription o w.db) x
      × (find_subscription o v.db ≡ some y)
      × Becomes p.settings e x y
processed_lem ⦃p⦄ e o w v fresh named unseen ran =
    let (x, was, found) = applied_lem e o w v fresh named unseen ran in
    (x, apply_event p.settings e x, was, found, apply-Becomes p.settings e x)
