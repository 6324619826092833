-- ===== src/Workers/Endings.antt =====
-- app/workers/tasks.py: a delivery task that returns has brought its delivery to an end, and mail goes
-- out for a pending invitation only.
use tenantflow_api.Prelude.{
  ℕ, ◌≡◌, refl, sym, ap, subst, String, true, some, arith, Bool-cases, inl, inr, ◌⊎◌, ◌∙◌, ⊤,
  if◌then◌else◌,
}
use tenantflow_api.Core.Errors.{Error, Result, ok, err}
use tenantflow_api.Db.Models.{WebhookDelivery, Database, DeliveryState}
use tenantflow_api.Db.Session.{Platform, World, request, settle, pure, ◌>>=◌, ◌>>◌, count_metric}
use tenantflow_api.Db.Session.Triple.{
  Returns, Triple, Triple-bind, Triple-pure, Keeps, Keeps-count_metric, request_ok,
}
use tenantflow_api.Webhooks.Targets.{Network}
use tenantflow_api.Workers.Deliver.{
  Attempt, HttpOutcome, http_error, response, Outcome, get_delivery, is_final, is_exhausted, fail,
  deliver, flush_changes, begin_attempt, finish, finish_delivered, report, attempt_post, run,
}
use tenantflow_api.Workers.Attempts.{updated, flush_same, fail_lem, flushed_fail, flushed_deliver}
use tenantflow_api.Workers.Begin.{Begun, begin-Begun}
use tenantflow_api.Workers.Tasks.{TaskEnd, end_delivery, deliver_webhook_task}

retry-finished : {n : ℕ} → TaskEnd.retry n ≡ TaskEnd.finished → ⊥
retry-finished h = cc

raised-finished : {e : Error} → TaskEnd.raised e ≡ TaskEnd.finished → ⊥
raised-finished h = cc

ended_of :
    (state : DeliveryState)
    → is_final state ≡ true
    → (state ≡ DeliveryState.delivered) ⊎ (state ≡ DeliveryState.dead)
ended_of DeliveryState.delivered h = inl refl
ended_of DeliveryState.dead h = inr refl
ended_of DeliveryState.pending h = absurd (ground arith)
ended_of DeliveryState.retrying h = absurd (ground arith)

module _ ⦃p : Platform⦄ (network : Network) (k : ℕ) where
  -- the delivery is delivered or dead
  abbrev EndedIn : Database → Type 0
  EndedIn d =
      (y : WebhookDelivery) × (get_delivery k d ≡ some y)
      × ((y.state ≡ DeliveryState.delivered) ⊎ (y.state ≡ DeliveryState.dead))

  abbrev pub Ended : World → Type 0
  Ended w = EndedIn w.db

  abbrev pub Stored : World → Type 0
  Stored w = (y : WebhookDelivery) × (get_delivery k w.db ≡ some y)

  abbrev Began : Attempt → World → Type 0
  Began (Attempt.post e y) w = get_delivery k w.db ≡ some y
  Began Attempt.dead w = Ended w
  Began Attempt.skipped w = Ended w

  Begun-Began :
      (x : WebhookDelivery) (d : World) (r : Result Attempt) (v : World)
      → Begun network k x (r, v)
      → Returns Began (settle d.db r v)
  Begun-Began x d (ok (Attempt.post e y)) v b = b.2 ∙ ap some (sym b.0)
  Begun-Began x d (ok Attempt.dead) v (fresh, y, stored, dead, same) = (y, stored, inr dead)
  Begun-Began x d (ok Attempt.skipped) v b = (x, b.1, ended_of x.state b.0)
  Begun-Began x d (err e) v b = tt

  begin-Began : Triple Stored (request (begin_attempt network k)) Began
  unfolding request
  begin-Began = record {
    at = λ w h.
        let (r, v) = begin_attempt network k w in
        Begun-Began h.0 w r v (begin-Begun network k h.0 w h.1);
  }

  -- a POST that is not to be retried has ended the delivery
  abbrev EndedBy : Outcome → World → Type 0
  EndedBy Outcome.retry w = ⊤
  EndedBy _ w = Ended w

  ended_fail :
      (instant : ℕ) (reason : String) (x : WebhookDelivery) (w : World)
      → get_delivery k w.db ≡ some (fail instant reason x)
      → EndedBy (if is_exhausted x then Outcome.dead else Outcome.retry) w
  ended_fail instant reason x w h = elim (Bool-cases (is_exhausted x)) [
    | inl e ↦ rw e (fail instant reason x, h, inr (ground arith))
    | inr e ↦ rw e tt
  ]

  finish-EndedBy :
      (x : WebhookDelivery) (http : HttpOutcome)
      → Triple (λ w. get_delivery k w.db ≡ some x) (request (finish network k x http)) EndedBy
  unfolding finish finish_delivered request ◌>>=◌
  finish-EndedBy x (response status) = record {
    at = λ w stored.
        let f = flush_changes x (deliver status x) in
        let row = (updated k f w.db x (λ y. (flush_same x (deliver status x) y).0) stored).1 in
        (deliver status x, row ∙ ap some (flushed_deliver status x), inl refl);
  }
  finish-EndedBy x (http_error reason) = record {
    at = λ w stored.
        let y = fail (p.clock w.ticks) reason x in
        let row = (updated k (flush_changes x y) w.db x (λ z. (flush_same x y z).0) stored).1 in
        subst (Returns EndedBy)
          (sym (
            request_ok (finish network k x (http_error reason)) w _ _
              (fail_lem network k reason x x w stored)))
          (ended_fail (p.clock w.ticks) reason x _
            (row ∙ ap some (flushed_fail (p.clock w.ticks) reason x)));
  }

  counted-Ended :
      (one two : String)
      → Keeps EndedIn
          (count_metric "webhook_delivery" one >> count_metric "webhook_delivery_job" two)
  counted-Ended one two =
      Triple-bind _ _ (Keeps-count_metric EndedIn _ _) λ _. Keeps-count_metric EndedIn _ _

  reported : (o : Outcome) → Triple (EndedBy o) (report network o >> pure o) EndedBy
  unfolding report
  reported Outcome.skipped = Triple-bind _ _ (counted-Ended _ _) λ _. Triple-pure _ (λ w h. h)
  reported Outcome.dead = Triple-bind _ _ (counted-Ended _ _) λ _. Triple-pure _ (λ w h. h)
  reported Outcome.delivered = Triple-bind _ _ (counted-Ended _ _) λ _. Triple-pure _ (λ w h. h)
  reported Outcome.retry =
      Triple-bind _ _
        (Triple-bind _ _ (Keeps-count_metric (λ d. ⊤) _ _) λ _. Keeps-count_metric (λ d. ⊤) _ _)
        λ _. Triple-pure _ (λ w h. tt)

  attempt_post-EndedBy :
      (http : HttpOutcome) (a : Attempt) → Triple (Began a) (attempt_post network k http a) EndedBy
  unfolding attempt_post
  attempt_post-EndedBy http Attempt.skipped = reported Outcome.skipped
  attempt_post-EndedBy http Attempt.dead = Triple-pure _ (λ w h. h)
  attempt_post-EndedBy http (Attempt.post e x) =
      Triple-bind _ _ (finish-EndedBy x http) λ o. reported o

  run-EndedBy : (http : HttpOutcome) → Triple Stored (run network k http) EndedBy
  unfolding run
  run-EndedBy http = Triple-bind _ _ begin-Began λ a. attempt_post-EndedBy http a

  finished_of :
      (retries : ℕ) (r : Result Outcome) (u v : World)
      → Returns EndedBy (r, u)
      → end_delivery retries r u ≡ (TaskEnd.finished, v)
      → Ended v
  finished_of retries (ok Outcome.retry) u v h e = absurd (retry-finished (ap (λ q. q.0) e))
  finished_of retries (ok Outcome.skipped) u v h e = subst Ended (ap (λ q. q.1) e) h
  finished_of retries (ok Outcome.dead) u v h e = subst Ended (ap (λ q. q.1) e) h
  finished_of retries (ok Outcome.delivered) u v h e = subst Ended (ap (λ q. q.1) e) h
  finished_of retries (err (Error.runtime_error m)) u v h e =
      absurd (retry-finished (ap (λ q. q.0) e))
  finished_of retries (err (Error.app a b c)) u v h e = absurd (raised-finished (ap (λ q. q.0) e))
  finished_of retries (err (Error.http a b c)) u v h e = absurd (raised-finished (ap (λ q. q.0) e))
  finished_of retries (err Error.integrity) u v h e = absurd (raised-finished (ap (λ q. q.0) e))
  finished_of retries (err Error.validation) u v h e = absurd (raised-finished (ap (λ q. q.0) e))
  finished_of retries (err (Error.value_error m)) u v h e =
      absurd (raised-finished (ap (λ q. q.0) e))

  -- A delivery task that returns, in place of asking Celery for a retry or raising, leaves a delivery
  -- that is in the database delivered or dead: none is given up while it is pending or retrying.
  pub finished-Ended :
      (retries : ℕ) (http : HttpOutcome) (w v : World)
      → Stored w
      → deliver_webhook_task network k retries http w ≡ (TaskEnd.finished, v)
      → Ended v
  unfolding deliver_webhook_task
  finished-Ended retries http w v h e =
      let (r, u) = run network k http w in finished_of retries r u v ((run-EndedBy http).at w h) e
