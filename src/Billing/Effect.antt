-- ===== src/Billing/Effect.antt =====
-- app/modules/billing/service.py: what a Stripe event leaves of the subscription.
use tenantflow_api.Prelude.{
  ℕ, ◌==◌, ◌≡◌, refl, ◌∙◌, ap, sym, subst, Bool, false, Option, none, some, scalar,
  scalar-append_none, scalar_own, scalar-update, ==-refl, arith, if◌then◌else◌,
}
use tenantflow_api.Core.Errors.{ok}
use tenantflow_api.Core.Config.{Settings}
use tenantflow_api.Db.Models.{Database, Subscription, free, inactive}
use tenantflow_api.Db.Session.{Platform, World, request, ◌>>=◌}
use tenantflow_api.Db.Session.Triple.{
  Triple, Triple-bind, Triple-pure, Triple-gets, Triple-lift, Triple-flush, Triple-after,
  Triple-run, Keeps-now, Keeps-new_uuid, Keeps-count_metric, request_returns,
}
use tenantflow_api.Audit.{insert_audit_log}
use tenantflow_api.Audit.Keeps.{record_audit-Keeps}
use tenantflow_api.Billing.Service.{
  Event, OrganizationRef, first_ref, apply_event, has_subscription_id, update_subscription,
  find_subscription, resolve_ref, resolve_organization_id, create_if_absent,
  get_or_create_subscription, synchronize, process_new, process_stripe_event, seen_event,
}

-- the subscription of the organization, or the free and inactive one that is made for it
pub data Was (found : Option Subscription) (x : Subscription) : Type 0 where
  stored : found ≡ some x → Was found x
  made :
      found ≡ none
      → x.plan ≡ free
      → x.status ≡ inactive
      → x.stripe_customer_id ≡ none
      → x.stripe_subscription_id ≡ none
      → Was found x

apply_same :
    (s : Settings) (e : Event) (y : Subscription)
    → (apply_event s e y).organization_id ≡ y.organization_id
unfolding apply_event
apply_same s e y = ground arith

ok_inj : (a b : Option ℕ) → ok a ≡ ok b → a ≡ b
ok_inj a b h = ground arith

module _ ⦃p : Platform⦄ (e : Event) (o : ℕ) (before : Database) where
  abbrev Same : Database → Type 0
  Same d = d.subscriptions ≡ before.subscriptions

  Same-found : (d : Database) → Same d → find_subscription o d ≡ find_subscription o before
  unfolding find_subscription
  Same-found d h = ap (scalar (λ (x : Subscription). x.organization_id == o)) h

  -- the row that is read or made, in its place
  abbrev Held : Subscription → World → Type 0
  Held x w = Was (find_subscription o before) x × (find_subscription o w.db ≡ some x)

  abbrev fresh_subscription : ℕ → ℕ → Subscription
  fresh_subscription instant k = record {
    id = k;
    created_at = instant;
    organization_id = o;
    plan = free;
    status = inactive;
    stripe_customer_id = none;
    stripe_subscription_id = none;
    current_period_end = none;
  }

  create_lem :
      (found : Option Subscription)
      → Triple (λ w. Same w.db × (find_subscription o w.db ≡ found)) (create_if_absent o found) Held
  unfolding create_if_absent find_subscription
  create_lem (some x) = Triple-pure _ (λ w h. (Was.stored (sym (Same-found w.db h.0) ∙ h.1), h.1))
  create_lem none =
      let P = λ (d : Database). Same d × (find_subscription o d ≡ none) in
      Triple-bind _ _ (Keeps-now P) λ instant. Triple-bind _ _ (Keeps-new_uuid P) λ id.
        Triple-bind _ _
          (Triple-flush {Q = λ _ w. Held (fresh_subscription instant id) w} _ _ (λ w h fits. (
            Was.made (sym (Same-found w.db h.0) ∙ h.1) refl refl refl refl,
            scalar-append_none _ w.db.subscriptions _ h.1
                ∙ scalar_own (λ (x : Subscription). x.organization_id == o)
                    (fresh_subscription instant id) (==-refl o),
          )))
          λ _. Triple-pure _ (λ w h. h)

  get_lem : Triple (λ w. Same w.db) (get_or_create_subscription o) Held
  unfolding get_or_create_subscription
  get_lem = Triple-bind _ _ (Triple-gets _ (find_subscription o)) create_lem

  -- what the event makes of the subscription
  abbrev pub Applied : Database → Type 0
  Applied d =
      (x : Subscription) × Was (find_subscription o before) x
      × (find_subscription o d ≡ some (apply_event p.settings e x))

  applied_update :
      (x : Subscription) (d : Database)
      → find_subscription o d ≡ some x
      → find_subscription o (update_subscription x.id (apply_event p.settings e) d)
        ≡ some (apply_event p.settings e x)
  unfolding find_subscription update_subscription
  applied_update x d h =
      scalar-update (λ (y : Subscription). y.organization_id == o) (has_subscription_id x.id)
        (apply_event p.settings e) d.subscriptions x
        (λ y. ap (λ k. k == o) (apply_same p.settings e y)) h
      ∙ ap (λ b. some (if b then apply_event p.settings e x else x)) (==-refl x.id)

  synchronize_lem :
      (marker : ℕ) → Triple (λ w. Same w.db) (synchronize e marker (some o)) (λ _ w. Applied w.db)
  unfolding synchronize find_subscription insert_audit_log
  synchronize_lem marker = Triple-bind _ _ get_lem λ x.
      Triple-bind _ _
        (Triple-flush {Q = λ _ w. Applied w.db} _ _
          (λ w h fits. (x, h.0, applied_update x w.db h.1)))
        λ _.
          Triple-bind _ _ (record_audit-Keeps Applied o (λ d r same h. h) _ _ _ _ _)
            λ _. Triple-pure _ (λ w h. h)

  module _
      (named : first_ref (e.object).metadata_organization_id (e.object).client_reference_id
        ≡ some (OrganizationRef.uuid o)) where
    resolve_lem :
        Triple (λ w. Same w.db) (resolve_organization_id e.object) (λ r w. Same w.db × (some o ≡ r))
    unfolding resolve_organization_id resolve_ref
    resolve_lem = rw named (
        Triple-bind _ _ (Triple-gets _ _) λ r.
          Triple-after (λ a w h. ((h.0).0, ok_inj (some o) a ((h.0).1 ∙ h.1))) (Triple-lift _ r))

    process_lem : Triple (λ w. Same w.db) (process_new e) (λ _ w. Applied w.db)
    unfolding process_new
    process_lem = Triple-bind _ _ (Keeps-now Same) λ instant.
        Triple-bind _ _ (Keeps-new_uuid Same) λ marker.
          Triple-bind _ _ (Triple-flush {Q = λ _ w. Same w.db} _ _ (λ w h fits. h)) λ _.
            Triple-bind _ _ resolve_lem λ r.
              Triple-bind _ _
                (record {
                  at = λ w h.
                      (subst
                          (λ k.
                            Triple (λ v. Same v.db) (synchronize e marker k) (λ _ v. Applied v.db))
                          h.1 (synchronize_lem marker)).at
                        w h.0;
                })
                λ _. Triple-bind _ _ (Keeps-count_metric Applied _ _) λ _. Triple-pure _ (λ w h. h)

-- A Stripe event that is new and names an organization, and whose processing returns, applies the event
-- to the subscription that the organization had, or to the free and inactive one that is made for it.
pub applied_lem :
    ⦃p : Platform⦄
    → (e : Event) (o : ℕ) (w v : World) (fresh : Bool)
    → first_ref (e.object).metadata_organization_id (e.object).client_reference_id
      ≡ some (OrganizationRef.uuid o)
    → seen_event e.id w.db ≡ false
    → request (process_stripe_event e) w ≡ (ok fresh, v)
    → Applied e o w.db v.db
unfolding process_stripe_event ◌>>=◌
applied_lem e o w v fresh named unseen ran =
    Triple-run (process_lem e o w.db named) w v fresh refl
      (let r = request_returns (process_stripe_event e) w v fresh ran in rw unseen at r)
