-- ===== src/Billing/Once.antt =====
-- app/modules/billing/service.py: what a Stripe event does, and that it does it once.
use tenantflow_api.Prelude.{
  ℕ, ◌≡◌, refl, ◌∙◌, ap, Bool, true, false, Option, none, some, ⊤, str_eq, str_eq_refl, exists,
  exists_own, if◌then◌else◌,
}
use tenantflow_api.Core.Errors.{ok}
use tenantflow_api.Db.Models.{Database, Subscription, StripeEvent}
use tenantflow_api.Db.Session.{Platform, World, request, pure, count_metric, ◌>>=◌, ◌>>◌}
use tenantflow_api.Db.Session.Triple.{
  Keeps, Triple, Triple-bind, Triple-pure, Triple-gets, Triple-lift, Triple-flush, Triple-weaken,
  Triple-after, Triple-run, Keeps-now, Keeps-new_uuid, Keeps-count_metric, request_returns,
}
use tenantflow_api.Audit.{insert_audit_log}
use tenantflow_api.Audit.Keeps.{record_audit-Keeps}
use tenantflow_api.Billing.Service.{
  Event, StripeObject, update_subscription, find_subscription, seen_event, resolve_organization_id,
  create_if_absent, get_or_create_subscription, synchronize, process_new, process_stripe_event,
}

resolve-Keeps : (P : Database → Type 0) (x : StripeObject) → Keeps P (resolve_organization_id x)
unfolding resolve_organization_id
resolve-Keeps P x =
    Triple-bind _ _ (Triple-gets (λ w. P w.db) _)
      λ r. Triple-after (λ o w h. (h.0).0) (Triple-lift _ r)

module _ ⦃p : Platform⦄ (e : Event) where
  abbrev Seen : Database → Type 0
  Seen d = seen_event e.id d ≡ true

  create-Seen : (o : ℕ) (found : Option Subscription) → Keeps Seen (create_if_absent o found)
  unfolding create_if_absent seen_event
  create-Seen o (some x) = Triple-pure _ (λ w h. h)
  create-Seen o none = Triple-bind _ _ (Keeps-now Seen) λ _.
      Triple-bind _ _ (Keeps-new_uuid Seen)
        λ _. Triple-bind _ _ (Triple-flush _ _ (λ w h fits. h)) λ _. Triple-pure _ (λ w h. h)

  synchronize-Seen : (marker : ℕ) (o : Option ℕ) → Keeps Seen (synchronize e marker o)
  unfolding synchronize get_or_create_subscription update_subscription seen_event insert_audit_log
  synchronize-Seen marker none = Triple-pure _ (λ w h. h)
  synchronize-Seen marker (some o) =
      Triple-bind _ _
        (Triple-bind _ _ (Triple-gets (λ w. Seen w.db) (find_subscription o))
          λ found. Triple-weaken (λ w h. h.0) (create-Seen o found))
        λ x. Triple-bind _ _ (Triple-flush _ _ (λ w h fits. h)) λ _.
          Triple-bind _ _ (record_audit-Keeps Seen o (λ d r same h. h) _ _ _ _ _)
            λ _. Triple-pure _ (λ w h. h)

  process_new-Seen : Triple (λ w. ⊤) (process_new e) (λ _ w. Seen w.db)
  unfolding process_new seen_event
  process_new-Seen = Triple-bind _ _ (Keeps-now (λ d. ⊤)) λ instant.
      Triple-bind _ _ (Keeps-new_uuid (λ d. ⊤)) λ marker.
        Triple-bind _ _
          (Triple-flush {Q = λ _ w. Seen w.db} _ _ (λ w _ fits.
            exists_own (λ (x : StripeEvent). str_eq x.stripe_event_id e.id) w.db.stripe_events _
              (str_eq_refl e.id)))
          λ _. Triple-bind _ _ (resolve-Keeps Seen e.object) λ o.
            Triple-bind _ _ (synchronize-Seen marker o)
              λ _. Triple-bind _ _ (Keeps-count_metric Seen _ _) λ _. Triple-pure _ (λ w h. h)

  decide-Seen :
      (b : Bool)
      → Triple
          (λ w. ⊤ × (seen_event e.id w.db ≡ b))
          (if b
            then (count_metric "stripe_webhook_events" "duplicate" >> pure false)
            else process_new e)
          (λ _ w. Seen w.db)
  decide-Seen true =
      Triple-bind _ _ (Triple-weaken (λ w h. h.1) (Keeps-count_metric Seen _ _))
        λ _. Triple-pure _ (λ w h. h)
  decide-Seen false = Triple-weaken (λ w h. tt) process_new-Seen

  process-Seen : Triple (λ w. ⊤) (process_stripe_event e) (λ _ w. Seen w.db)
  unfolding process_stripe_event
  process-Seen = Triple-bind _ _ (Triple-gets (λ w. ⊤) (seen_event e.id)) decide-Seen

  process_again :
      (w : World)
      → Seen w.db
      → ((process_stripe_event e w).0 ≡ ok false) × ((process_stripe_event e w).1.db ≡ w.db)
  unfolding process_stripe_event ◌>>=◌
  process_again w h = (rw h refl, rw h refl)

  -- A Stripe event that was processed, or found processed already, has no effect when it comes
  -- again: the call returns False and the database stays as it is, as long as the markers of the
  -- events are as the first call left them.
  pub processed_once :
      (w v later : World) (fresh : Bool)
      → request (process_stripe_event e) w ≡ (ok fresh, v)
      → later.db.stripe_events ≡ v.db.stripe_events
      → ((process_stripe_event e later).0 ≡ ok false)
        × ((process_stripe_event e later).1.db ≡ later.db)
  unfolding seen_event
  processed_once w v later fresh first same =
      let h =
        Triple-run process-Seen w v fresh tt
          (request_returns (process_stripe_event e) w v fresh first) in
      process_again later
        (ap (exists (λ (x : StripeEvent). str_eq x.stripe_event_id e.id)) same ∙ h)
