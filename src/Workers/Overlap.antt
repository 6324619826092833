-- ===== src/Workers/Overlap.antt =====
-- app/workers/tasks.py: two jobs of one delivery whose transactions interleave.
use tenantflow_api.Prelude.{ℕ, ◌≡◌, refl, ◌∙◌, sym, ap, subst, ◌<◌, String, false, some, arith}
use tenantflow_api.Core.Errors.{ok}
use tenantflow_api.Db.Models.{WebhookEndpoint, WebhookDelivery, DeliveryState}
use tenantflow_api.Db.Session.{Platform, World, request, ◌>>=◌}
use tenantflow_api.Db.Session.Triple.{request_ok}
use tenantflow_api.Webhooks.Targets.{Network}
use tenantflow_api.Workers.Deliver.{
  Attempt, http_error, response, deliver, finish_delivered, get_delivery, update_delivery, is_final,
  count_attempt, fail, flush_changes, begin_attempt, finish,
}
use tenantflow_api.Workers.Attempts.{
  updated, IsOpen, begin_posts, kept-IsOpen, flush_same, fail_lem,
}

module _ ⦃p : Platform⦄ (network : Network) (k : ℕ) where
  begin_run :
      (x : WebhookDelivery) (e : WebhookEndpoint) (w : World)
      → IsOpen network k x e w.db
      → is_final x.state ≡ false
      → request (begin_attempt network k) w ≡ (
        ok (Attempt.post e (count_attempt x)),
        record w { db = update_delivery k count_attempt w.db },
      )
  begin_run x e w h fresh =
      let same = (updated k count_attempt w.db x (λ y. refl) h.found).0 in
      request_ok (begin_attempt network k) w _ (Attempt.post e (count_attempt x)) (
        begin_posts network k x e w h fresh
        ∙ ap
            (λ j. (
              ok (Attempt.post e (count_attempt x)),
              record w { db = update_delivery j count_attempt w.db },
            ))
            same)

  begin-IsOpen :
      (x : WebhookDelivery) (e : WebhookEndpoint) (w : World)
      → IsOpen network k x e w.db
      → is_final x.state ≡ false
      → IsOpen network k (count_attempt x) e (request (begin_attempt network k) w).1.db
  begin-IsOpen x e w h fresh =
      subst (λ r. IsOpen network k (count_attempt x) e r.1.db) (sym (begin_run x e w h fresh))
        (kept-IsOpen network k count_attempt x e w.db (λ y. (refl, refl)) h)

  -- the second transaction of a job, whose object is `x`, when the row is `y`
  deliver-IsOpen :
      (status : ℕ) (x y : WebhookDelivery) (e : WebhookEndpoint) (w : World)
      → IsOpen network k y e w.db
      → IsOpen network k
          (flush_changes x (deliver status x) y)
          e
          (request (finish network k x (response status)) w).1.db
  unfolding finish finish_delivered request ◌>>=◌
  deliver-IsOpen status x y e w h =
      kept-IsOpen network k (flush_changes x (deliver status x)) y e w.db
        (flush_same x (deliver status x)) h

  fail-IsOpen :
      (reason : String) (x y : WebhookDelivery) (e : WebhookEndpoint) (w : World)
      → IsOpen network k y e w.db
      → IsOpen network k
          (flush_changes x (fail (p.clock w.ticks) reason x) y)
          e
          (request (finish network k x (http_error reason)) w).1.db
  fail-IsOpen reason x y e w h =
      let f = fail (p.clock w.ticks) reason x in
      subst (λ r. IsOpen network k (flush_changes x f y) e r.1.db)
        (sym (
          request_ok (finish network k x (http_error reason)) w _ _
            (fail_lem network k reason x y w h.found)))
        (kept-IsOpen network k (flush_changes x f) y e w.db (flush_same x f) h)

  pending_of : (x : WebhookDelivery) → x.state ≡ DeliveryState.pending → is_final x.state ≡ false
  pending_of x h = ap is_final h

  -- Two jobs of one pending delivery that overlap, each with its own object of the delivery: both begin,
  -- the first is answered, and then the POST of the second fails. The delivery, with fewer than three
  -- attempts before, is delivered after the answer, and retrying in the end.
  pub overtaken :
      (status : ℕ) (reason : String) (x : WebhookDelivery) (e : WebhookEndpoint) (w : World)
      → IsOpen network k x e w.db
      → x.state ≡ DeliveryState.pending
      → x.attempt_count < 3
      → let first = request (begin_attempt network k) w in
        let second = request (begin_attempt network k) first.1 in
        let mine = count_attempt x in
        let yours = count_attempt (count_attempt x) in
        let answered = (request (finish network k mine (response status)) second.1).1 in
        let failed = (request (finish network k yours (http_error reason)) answered).1 in
        (first.0 ≡ ok (Attempt.post e mine))
        × (second.0 ≡ ok (Attempt.post e yours))
        × ((y : WebhookDelivery) × (get_delivery k answered.db ≡ some y)
            × (y.state ≡ DeliveryState.delivered))
        × ((z : WebhookDelivery) × (get_delivery k failed.db ≡ some z)
            × (z.state ≡ DeliveryState.retrying))
  unfolding flush_changes
  overtaken status reason x e w h fresh few =
      let mine = count_attempt x in
      let yours = count_attempt mine in
      let open_state = pending_of x fresh in
      let first = request (begin_attempt network k) w in
      let second = request (begin_attempt network k) first.1 in
      let w3 = (request (finish network k mine (response status)) second.1).1 in
      let one = begin-IsOpen x e w h open_state in
      let two = begin-IsOpen mine e first.1 one open_state in
      let y = flush_changes mine (deliver status mine) yours in
      let three = deliver-IsOpen status mine yours e second.1 two in
      let four = fail-IsOpen reason yours y e w3 three in
      (
        ap (λ r. r.0) (begin_run x e w h open_state),
        ap (λ r. r.0) (begin_run mine e first.1 one open_state),
        (y, three.found, rw fresh refl),
        (flush_changes yours (fail (p.clock w3.ticks) reason yours) y, four.found, ground arith),
      )
