-- ===== src/Workers/Attempts.antt =====
-- app/workers/tasks.py: how many attempts a delivery gets.
use tenantflow_api.Prelude.{
  ℕ, ◌+◌, ◌≡◌, refl, ◌∙◌, sym, ap, subst, ◌≤◌, ◌<◌, String, true, false, Option, none, some, str_eq,
  str_eq→eq, List, [], ◌∷◌, length, arith, ◌==◌, ==→eq, scalar_passes, scalar-update, if◌then◌else◌,
  Bool-cases, inl, inr, ◌⊎◌,
}
use tenantflow_api.Core.Errors.{ok}
use tenantflow_api.Db.Models.{Database, WebhookEndpoint, WebhookDelivery, DeliveryState}
use tenantflow_api.Db.Session.{Platform, World, request, pure, ◌>>=◌, ◌>>◌}
use tenantflow_api.Db.Session.Triple.{bind_ok, request_ok}
use tenantflow_api.Webhooks.Targets.{Network, validate_webhook_target}
use tenantflow_api.Webhooks.Router.{has_delivery_id, get_endpoint}
use tenantflow_api.Workers.Deliver.{
  Attempt, HttpOutcome, Outcome, http_error, get_delivery, update_delivery, is_final, count_attempt,
  fail, deliver, flush_changes, same_state, same_number, same_text, is_exhausted, open_attempt,
  begin_attempt, record_failure, finish_failed, finish, report, attempt_post, run,
}

pub updated :
    (k : ℕ) (f : WebhookDelivery → WebhookDelivery) (d : Database) (x : WebhookDelivery)
    → ((y : WebhookDelivery) → (f y).id ≡ y.id)
    → get_delivery k d ≡ some x
    → (x.id ≡ k) × (get_delivery k (update_delivery k f d) ≡ some (f x))
unfolding get_delivery update_delivery
updated k f d x same e =
    let hit = scalar_passes (has_delivery_id k) d.webhook_deliveries x e in
    (
      ==→eq x.id k hit,
      scalar-update (has_delivery_id k) (has_delivery_id k) f d.webhook_deliveries x
            (λ y. ap (λ j. j == k) (same y)) e
          ∙ ap (λ b. some (if b then f x else x)) hit,
    )

-- a column that is set, or left as it was loaded, has the value of the changed object
settled_state : (a b : DeliveryState) → (if same_state a b then a else b) ≡ b
settled_state DeliveryState.pending DeliveryState.pending = refl
settled_state DeliveryState.pending DeliveryState.delivered = refl
settled_state DeliveryState.pending DeliveryState.retrying = refl
settled_state DeliveryState.pending DeliveryState.dead = refl
settled_state DeliveryState.delivered DeliveryState.pending = refl
settled_state DeliveryState.delivered DeliveryState.delivered = refl
settled_state DeliveryState.delivered DeliveryState.retrying = refl
settled_state DeliveryState.delivered DeliveryState.dead = refl
settled_state DeliveryState.retrying DeliveryState.pending = refl
settled_state DeliveryState.retrying DeliveryState.delivered = refl
settled_state DeliveryState.retrying DeliveryState.retrying = refl
settled_state DeliveryState.retrying DeliveryState.dead = refl
settled_state DeliveryState.dead DeliveryState.pending = refl
settled_state DeliveryState.dead DeliveryState.delivered = refl
settled_state DeliveryState.dead DeliveryState.retrying = refl
settled_state DeliveryState.dead DeliveryState.dead = refl

settled_number : (a b : Option ℕ) → (if same_number a b then a else b) ≡ b
settled_number none none = refl
settled_number none (some b) = refl
settled_number (some a) none = refl
settled_number (some a) (some b) = elim (Bool-cases (a == b)) [
  | inl y ↦ rw y (ap some (==→eq a b y))
  | inr n ↦ rw n refl
]

settled_text : (a b : Option String) → (if same_text a b then a else b) ≡ b
settled_text none none = refl
settled_text none (some b) = refl
settled_text (some a) none = refl
settled_text (some a) (some b) = elim (Bool-cases (str_eq a b)) [
  | inl y ↦ rw y (ap some (str_eq→eq a b y))
  | inr n ↦ rw n refl
]

-- a job that no other one overlaps writes its object
flushed_own :
    (x : WebhookDelivery) (state : DeliveryState) (status : Option ℕ) (error : Option String)
    (next : Option ℕ)
    → let changed : WebhookDelivery = record x {
      state = state;
      response_status = status;
      last_error = error;
      next_retry_at = next;
    } in
      flush_changes x changed x ≡ changed
unfolding flush_changes
flushed_own x state status error next = rw (settled_state x.state state) (
    rw (settled_number x.response_status status)
      (rw (settled_text x.last_error error) (rw (settled_number x.next_retry_at next) refl)))

pub flushed_fail :
    (instant : ℕ) (reason : String) (x : WebhookDelivery)
    → flush_changes x (fail instant reason x) x ≡ fail instant reason x
flushed_fail instant reason x = elim (Bool-cases (is_exhausted x)) [
  | inl last ↦ rw last (flushed_own x _ _ _ _)
  | inr more ↦ rw more (flushed_own x _ _ _ _)
]

pub flushed_deliver :
    (status : ℕ) (x : WebhookDelivery) → flush_changes x (deliver status x) x ≡ deliver status x
flushed_deliver status x = flushed_own x _ _ _ _

-- a flush leaves the key and the endpoint of the row
pub flush_same :
    (x y row : WebhookDelivery)
    → ((flush_changes x y row).id ≡ row.id)
      × ((flush_changes x y row).endpoint_id ≡ row.endpoint_id)
unfolding flush_changes
flush_same x y row = (refl, refl)

pub not_final :
    (state : DeliveryState)
    → (state ≡ DeliveryState.pending) ⊎ (state ≡ DeliveryState.retrying)
    → is_final state ≡ false
not_final state (inl h) = ap is_final h
not_final state (inr h) = ap is_final h

module _ ⦃p : Platform⦄ (network : Network) (k : ℕ) where
  -- the delivery `k` is `x`, and its endpoint `e` can be posted to
  pub record IsOpen (x : WebhookDelivery) (e : WebhookEndpoint) (d : Database) : Type 0 where
    pub found : get_delivery k d ≡ some x
    pub endpoint : get_endpoint x.endpoint_id d ≡ some e
    pub active : e.is_active ≡ true
    pub target : validate_webhook_target p.settings network e.url ≡ ok tt

  pub begin_posts :
      (x : WebhookDelivery) (e : WebhookEndpoint) (w : World)
      → IsOpen x e w.db
      → is_final x.state ≡ false
      → begin_attempt network k w ≡ (
        ok (Attempt.post e (count_attempt x)),
        record w { db = update_delivery x.id count_attempt w.db },
      )
  unfolding begin_attempt open_attempt ◌>>=◌
  begin_posts x e w h fresh =
      let a = h.found in
      let b = h.endpoint in
      let c = h.active in let t = h.target in rw a (rw fresh (rw b (ground arith)))

  pub fail_lem :
      (reason : String) (x y : WebhookDelivery) (w : World)
      → get_delivery k w.db ≡ some y
      → finish network k x (http_error reason) w ≡ (
        ok (if is_exhausted x then Outcome.dead else Outcome.retry),
        record w {
          ticks = w.ticks + 1;
          db = update_delivery k (flush_changes x (fail (p.clock w.ticks) reason x)) w.db;
        },
      )
  unfolding finish finish_failed record_failure ◌>>=◌
  fail_lem reason x y w e = rw e refl

  -- writing the row keeps it open, if its endpoint stays
  pub kept-IsOpen :
      (f : WebhookDelivery → WebhookDelivery) (x : WebhookDelivery) (e : WebhookEndpoint)
      (d : Database)
      → ((y : WebhookDelivery) → ((f y).id ≡ y.id) × ((f y).endpoint_id ≡ y.endpoint_id))
      → IsOpen x e d
      → IsOpen (f x) e (update_delivery k f d)
  unfolding update_delivery get_endpoint
  kept-IsOpen f x e d same h = record {
    found = (updated k f d x (λ y. (same y).0) h.found).1;
    endpoint = rw (same x).1 h.endpoint;
    active = h.active;
    target = h.target;
  }

  reported : (o : Outcome) (w : World) → ((report network o >> pure o) w).1.db ≡ w.db
  unfolding report ◌>>=◌
  reported Outcome.skipped w = refl
  reported Outcome.dead w = refl
  reported Outcome.delivered w = refl
  reported Outcome.retry w = refl

  -- a job whose POST fails: the row it leaves
  failing_run :
      (reason : String) (x : WebhookDelivery) (e : WebhookEndpoint) (w : World)
      → IsOpen x e w.db
      → is_final x.state ≡ false
      → IsOpen
          (fail (p.clock w.ticks) reason (count_attempt x))
          e
          (run network k (http_error reason) w).1.db
  unfolding run attempt_post
  failing_run reason x e w h fresh =
      let y = count_attempt x in
      let step = updated k count_attempt w.db x (λ y. refl) h.found in
      let begun : begin_attempt network k w
          ≡ (ok (Attempt.post e y), record w { db = update_delivery k count_attempt w.db }) =
        begin_posts x e w h fresh
        ∙ ap (λ j. (ok (Attempt.post e y), record w { db = update_delivery j count_attempt w.db }))
            step.0 in
      let w1 : World = record w { db = update_delivery k count_attempt w.db } in
      let finished = fail_lem reason y y w1 step.1 in
      let f = flush_changes y (fail (p.clock w.ticks) reason y) in
      let o = if is_exhausted y then Outcome.dead else Outcome.retry in
      let w2 : World = record w { ticks = w.ticks + 1; db = update_delivery k f w1.db } in
      let first =
        bind_ok (request (begin_attempt network k)) (attempt_post network k (http_error reason)) w
          w1 (Attempt.post e y)
          (request_ok (begin_attempt network k) w w1 (Attempt.post e y) begun) in
      let second =
        bind_ok (request (finish network k y (http_error reason))) (λ o. report network o >> pure o)
          w1 w2 o (request_ok (finish network k y (http_error reason)) w1 w2 o finished) in
      let db : (run network k (http_error reason) w).1.db ≡ w2.db =
        ap (λ r. r.1.db) (first ∙ second) ∙ reported o w2 in
      subst (λ d. IsOpen (fail (p.clock w.ticks) reason y) e d) (sym db)
        (subst (λ z. IsOpen z e w2.db) (flushed_fail (p.clock w.ticks) reason y)
          (kept-IsOpen f y e w1.db (flush_same y (fail (p.clock w.ticks) reason y))
            (kept-IsOpen count_attempt x e w.db (λ y. (refl, refl)) h)))

  -- A job on a delivery that is delivered or dead is skipped, and leaves the database.
  skipped_run :
      (http : HttpOutcome) (x : WebhookDelivery) (w : World)
      → get_delivery k w.db ≡ some x
      → is_final x.state ≡ true
      → ((run network k http w).0 ≡ ok Outcome.skipped) × ((run network k http w).1.db ≡ w.db)
  unfolding run begin_attempt attempt_post request report ◌>>=◌
  skipped_run http x w e closed = rw e (rw closed (refl, refl))

  -- one job after another, the POST of each failing with its reason
  unfoldable pub failing_jobs : List String → World → World
  unfolding run
  failing_jobs [] w = w
  failing_jobs (reason ∷ rest) w = failing_jobs rest (run network k (http_error reason) w).1

  stays_closed :
      (reasons : List String) (x : WebhookDelivery) (w : World)
      → get_delivery k w.db ≡ some x
      → is_final x.state ≡ true
      → get_delivery k (failing_jobs reasons w).db ≡ some x
  unfolding failing_jobs
  stays_closed [] x w e closed = e
  stays_closed (reason ∷ rest) x w e closed =
      let same = (skipped_run (http_error reason) x w e closed).1 in
      stays_closed rest x (run network k (http_error reason) w).1 (ap (get_delivery k) same ∙ e)
        closed

  -- jobs with any outcomes of their POSTs
  unfoldable pub jobs : List HttpOutcome → World → World
  unfolding run
  jobs [] w = w
  jobs (http ∷ rest) w = jobs rest (run network k http w).1

  jobs_leave :
      (more : List HttpOutcome) (x : WebhookDelivery) (w : World)
      → get_delivery k w.db ≡ some x
      → is_final x.state ≡ true
      → (jobs more w).db ≡ w.db
  unfolding jobs
  jobs_leave [] x w e closed = refl
  jobs_leave (http ∷ rest) x w e closed =
      let same = (skipped_run http x w e closed).1 in
      jobs_leave rest x (run network k http w).1 (ap (get_delivery k) same ∙ e) closed ∙ same

  attempts_lem :
      (reasons : List String) (x : WebhookDelivery) (e : WebhookEndpoint) (w : World)
      → IsOpen x e w.db
      → is_final x.state ≡ false
      → x.attempt_count < 5
      → 5 ≤ x.attempt_count + length reasons
      → (y : WebhookDelivery) × (get_delivery k (failing_jobs reasons w).db ≡ some y)
        × (y.state ≡ DeliveryState.dead)
        × (y.attempt_count ≡ 5)
  unfolding failing_jobs
  attempts_lem [] x e w h fresh few enough = absurd (omega arith)
  attempts_lem (reason ∷ rest) x e w h fresh few enough =
      let y = fail (p.clock w.ticks) reason (count_attempt x) in
      let after = failing_run reason x e w h fresh in
      let next = (run network k (http_error reason) w).1 in
      elim (Bool-cases (is_exhausted (count_attempt x))) [
        | inl last ↦
            (y, stays_closed rest y next after.found (ground arith), ground arith, ground arith)
        | inr more ↦ attempts_lem rest y e next after (ground arith) (ground arith) (ground arith)
      ]

  -- A delivery that is pending or retrying and has had fewer than five attempts, with an active
  -- endpoint and a target that passes, is dead after as many failing jobs as are left to five: it has
  -- had five attempts then, and further jobs, whatever their POSTs would bring, leave the database as it
  -- is.
  pub gives_up :
      (reasons : List String) (more : List HttpOutcome) (x : WebhookDelivery) (e : WebhookEndpoint)
      (w : World)
      → IsOpen x e w.db
      → (x.state ≡ DeliveryState.pending) ⊎ (x.state ≡ DeliveryState.retrying)
      → x.attempt_count < 5
      → 5 ≤ x.attempt_count + length reasons
      → let dead = failing_jobs reasons w in
        ((y : WebhookDelivery) × (get_delivery k dead.db ≡ some y)
          × (y.state ≡ DeliveryState.dead)
          × (y.attempt_count ≡ 5))
        × ((jobs more dead).db ≡ dead.db)
  gives_up reasons more x e w h unfinished few enough =
      let (y, stored, dead, five) =
        attempts_lem reasons x e w h (not_final x.state unfinished) few enough in
      (
        (y, stored, dead, five),
        jobs_leave more y (failing_jobs reasons w) stored (ap is_final dead),
      )
