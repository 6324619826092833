-- ===== src/Billing/Replay.antt =====
-- app/modules/billing/router.py: `checkout` under a repeated key.
use tenantflow_api.Prelude.{
  ℕ, ◌+◌, ◌≡◌, refl, ◌∙◌, sym, ap, subst, String, true, not, Option, none, some, List, inl, inr,
  Bool-cases, str_eq, ⊤,
}
use tenantflow_api.Core.Errors.{Error, ok}
use tenantflow_api.Core.Permissions.{billing_manage}
use tenantflow_api.Core.Dependencies.{OrganizationContext, require_permission}
use tenantflow_api.Db.Json.{Fields, get_field}
use tenantflow_api.Db.Models.{Database, User, IdempotencyRecord, Subscription}
use tenantflow_api.Db.Session.{Platform, World, Action, request, raise_if, ◌>>=◌, ◌>>◌}
use tenantflow_api.Db.Session.Triple.{
  Keeps, Triple, Triple-bind, Triple-pure, Triple-gets, Triple-or_raise, Triple-raise_if,
  Triple-lift, Triple-flush, Triple-weaken, Triple-after, Keeps-now, Keeps-new_uuid,
  request_returns, Triple-run, guard_passes,
}
use tenantflow_api.Access.{require_permission-db}
use tenantflow_api.Infra.Idempotency.{IdempotencyState, canonical_request_hash, acquire_idempotency}
use tenantflow_api.Infra.Idempotency.Replay.{IsClaimed, IsHeld, acquire_lem, complete_lem}
use tenantflow_api.Infra.Idempotency.Kept.{IsKept, IsClaimed-of, IsKept-of, later, acquire_later}
use tenantflow_api.Organizations.Schemas.{valid_key, validate_key}
use tenantflow_api.Billing.Service.{find_subscription, create_if_absent, get_or_create_subscription}
use tenantflow_api.Billing.Router.{
  Stripe, HostedSession, CheckoutRequest, valid_plan, dump_checkout_request, dump_checkout,
  validate_checkout, checkout_scope, create_billing_checkout, checkout_once, checkout,
}

-- Reading back the JSON of a response gives the response.
validate-dump_checkout : (s : HostedSession) → validate_checkout (dump_checkout s) ≡ some s
unfolding validate_checkout get_field
validate-dump_checkout s = refl

module _ ⦃p : Platform⦄ (Q : List IdempotencyRecord → Type 0) where
  abbrev KeepsKeys : {A : Type 0} → Action A → Type 0
  KeepsKeys m = Keeps (λ d. Q d.idempotency_records) m

  create_if_absent-Keeps :
      (o : ℕ) (found : Option Subscription) → KeepsKeys (create_if_absent o found)
  unfolding create_if_absent
  create_if_absent-Keeps o (some x) = Triple-pure _ (λ w h. h)
  create_if_absent-Keeps o none =
      let P = λ (d : Database). Q d.idempotency_records in
      Triple-bind _ _ (Keeps-now P) λ _.
        Triple-bind _ _ (Keeps-new_uuid P)
          λ _. Triple-bind _ _ (Triple-flush _ _ (λ w h fits. h)) λ _. Triple-pure _ (λ w h. h)

  create_billing_checkout-Keeps :
      (stripe : Stripe) (o : ℕ) (payload : CheckoutRequest) (key : String)
      → KeepsKeys (create_billing_checkout stripe o payload key)
  unfolding create_billing_checkout get_or_create_subscription
  create_billing_checkout-Keeps stripe o payload key = Triple-bind _ _ (Triple-raise_if _ _ _) λ _.
      Triple-bind _ _ (Triple-raise_if _ _ _) λ _.
        Triple-bind _ _
          (Triple-bind _ _ (Triple-weaken (λ w h. (h.0).0) (Triple-gets _ (find_subscription o)))
            λ found. Triple-weaken (λ w h. h.0) (create_if_absent-Keeps o found))
          λ subscription. Triple-after (λ x w h. h.0) (Triple-lift _ _)

abbrev pub hash_of : ⦃p : Platform⦄ → CheckoutRequest → String
hash_of c = canonical_request_hash (dump_checkout_request c)

module _ ⦃p : Platform⦄ (o : ℕ) (user : User) (payload : CheckoutRequest) (key : String) where
  abbrev Kept : HostedSession → World → Type 0
  Kept x w =
      IsKept validate_checkout (checkout_scope o user) key (hash_of payload) x
        w.db.idempotency_records

  abbrev Held : IdempotencyState → World → Type 0
  Held state w = IsHeld (checkout_scope o user) key (hash_of payload) state w.db.idempotency_records

  checkout_once_lem :
      (stripe : Stripe) (k : ℕ) (status : Option ℕ) (body : Option Fields)
      → let state : IdempotencyState = record {
        record_id = k;
        replay_status = status;
        replay_body = body;
      } in
        Triple (Held state) (checkout_once stripe o payload key state) Kept
  unfolding checkout_once
  checkout_once_lem stripe k none body =
      Triple-bind _ _
        (Triple-weaken (λ w h. IsClaimed-of refl h)
          (create_billing_checkout-Keeps (IsClaimed (checkout_scope o user) key (hash_of payload) _)
            stripe o payload key))
        λ s.
          Triple-bind _ _ (complete_lem (checkout_scope o user) key (hash_of payload) _ 201 _) λ _.
            Triple-pure _ (λ w h. record {
              status = 201;
              body = dump_checkout s;
              answered = h;
              reads = validate-dump_checkout s;
            })
  checkout_once_lem stripe k (some s) body =
      Triple-bind _ _ (Triple-or_raise _ body _)
        λ b. Triple-after (λ x w h. IsKept-of refl h) (Triple-or_raise _ (validate_checkout b) _)

  -- the part of `checkout` behind the permission
  abbrev checked : Stripe → CheckoutRequest → Action HostedSession
  checked stripe c =
      validate_key key
      >> (raise_if (not (valid_plan c.plan)) Error.validation
          >> (acquire_idempotency user.id (some o) (checkout_scope o user) key (hash_of c)
              >>= checkout_once stripe o c key))

  checked_lem : (stripe : Stripe) → Triple (λ w. ⊤) (checked stripe payload) (λ x w. Kept x w)
  unfolding validate_key
  checked_lem stripe = Triple-bind _ _ (Triple-raise_if _ _ _) λ _.
      Triple-bind _ _ (Triple-raise_if _ _ _) λ _.
        Triple-bind _ _
          (Triple-weaken (λ w h. tt)
            (acquire_lem (checkout_scope o user) key (hash_of payload) user.id (some o)))
          λ state. checkout_once_lem stripe state.record_id state.replay_status state.replay_body

  once_again :
      (again : Stripe) (other : CheckoutRequest) (x : HostedSession) (w : World)
      → Kept x w
      → (acquire_idempotency user.id (some o) (checkout_scope o user) key (hash_of other)
            >>= checkout_once again o other key)
          w
        ≡ (later (str_eq (hash_of payload) (hash_of other)) x, record w { ticks = w.ticks + 2 })
  unfolding ◌>>=◌ checkout_once
  once_again again other x w h =
      let e =
        acquire_later (checkout_scope o user) key (hash_of payload) user.id (some o) h.status h.body
          (hash_of other) w h.answered in
      let f = h.reads in
      elim (Bool-cases (str_eq (hash_of payload) (hash_of other))) [
        | inl y ↦ rw e (rw y (rw f refl))
        | inr n ↦ rw e (rw n refl)
      ]

module _ ⦃p : Platform⦄ where
  -- After a checkout that succeeded, a checkout of the same user with the same key is answered with the
  -- same session if its payload has the same hash, and refused with a 409 otherwise, as long as the
  -- idempotency records are as the first one left them; either way it writes nothing, and its answer is
  -- the same whatever Stripe would answer.
  pub checkout_replayed :
      (stripe again : Stripe) (o : ℕ) (payload other : CheckoutRequest) (key token new : String)
      (w w1 v next next1 : World) (c d : OrganizationContext) (x : HostedSession)
      → require_permission billing_manage o token w ≡ (ok c, w1)
      → request (checkout stripe o payload key token) w ≡ (ok x, v)
      → require_permission billing_manage o new next ≡ (ok d, next1)
      → d.user.id ≡ c.user.id
      → valid_plan other.plan ≡ true
      → next.db.idempotency_records ≡ v.db.idempotency_records
      → let (r, after) = request (checkout again o other key new) next in
        (r ≡ later (str_eq (hash_of payload) (hash_of other)) x) × (after.db ≡ next.db)
  unfolding checkout request ◌>>=◌ validate_key raise_if
  checkout_replayed stripe again o payload other key token new w w1 v next next1 c d x is_user first
        is_user' same_user plan same =
      let ran = rw is_user at (request_returns (checkout stripe o payload key token) w v x first) in
      let h = Triple-run (checked_lem o c.user payload key stripe) w1 v x tt ran in
      let valid = guard_passes (valid_key key) _ _ w1 v x ran in
      let rs = require_permission-db billing_manage o new next next1 d is_user' in
      let kept =
        subst (λ rs. IsKept validate_checkout (checkout_scope o c.user) key (hash_of payload) x rs)
          (sym same ∙ ap (λ d. d.idempotency_records) (sym rs)) h in
      let k = once_again o c.user payload key again other x next1 kept in
      elim (Bool-cases (str_eq (hash_of payload) (hash_of other))) [
        | inl y ↦ rw is_user' (rw valid (rw plan (rw same_user (rw k (rw y (refl, rs))))))
        | inr n ↦ rw is_user' (rw valid (rw plan (rw same_user (rw k (rw n (refl, refl))))))
      ]
