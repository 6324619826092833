-- ===== src/Db/Session/Triple.antt =====
-- Reasoning on actions by their steps. A triple speaks of the runs that return: after an
-- exception the request rolls back.
use tenantflow_api.Prelude.{
  String, ap, subst, ◌+◌, [], ◌∷◌, ◌++◌, ◌≡◌, refl, Bool, true, false, Option, none, some,
  if◌then◌else◌, ⊤, not, unnegated,
}
use tenantflow_api.Core.Errors.{Error, Result, ok, err, err_ok}
use tenantflow_api.Db.Models.{Database}
use tenantflow_api.Db.Session.{
  Platform, Job, World, Action, pure, raise, lift, gets, or_raise, raise_if, write, flush, now,
  new_uuid, new_token, publish, count_metric, ◌>>=◌, pass, settle, request, ◌>>◌,
}

-- the run returned, with a value and a state of which `Q` holds
abbrev pub Returns : {A : Type 0} → (A → World → Type 0) → Result A × World → Type 0
Returns Q (ok a, w) = Q a w
Returns Q (err e, w) = ⊤

pub record Triple {A : Type 0} (P : World → Type 0) (m : Action A) (Q : A → World → Type 0)
    : Type 0 where
  pub at : (w : World) → P w → Returns Q (m w)

-- `m` keeps a property of the database
abbrev pub Keeps : {A : Type 0} → (Database → Type 0) → Action A → Type 0
Keeps P m = Triple (λ w. P w.db) m (λ _ w. P w.db)

module _ {A B : Type 0} {Q : A → World → Type 0} {R : B → World → Type 0} where
  pass-Returns :
      (f : A → Action B)
      → ((a : A) → Triple (Q a) (f a) R)
      → (r : Result A) (w : World) → Returns Q (r, w)
      → Returns R (pass f r w)
  pass-Returns f hf (ok a) w h = (hf a).at w h
  pass-Returns f hf (err e) w h = tt

  pub Triple-bind :
      {P : World → Type 0} (m : Action A) (f : A → Action B)
      → Triple P m Q
      → ((a : A) → Triple (Q a) (f a) R)
      → Triple P (m >>= f) R
  unfolding ◌>>=◌
  Triple-bind m f hm hf = record {
    at = λ w h. let (r, v) = m w in pass-Returns f hf r v (hm.at w h);
  }

after_Returns :
    {A : Type 0} (Q' Q : A → World → Type 0)
    → ((a : A) (w : World) → Q' a w → Q a w)
    → (r : Result A) (w : World) → Returns Q' (r, w)
    → Returns Q (r, w)
after_Returns Q' Q h (ok a) w k = h a w k
after_Returns Q' Q h (err e) w k = tt

module _ {A : Type 0} {P : World → Type 0} {Q : A → World → Type 0} where
  pub Triple-weaken :
      {P' : World → Type 0} {m : Action A}
      → ((w : World) → P w → P' w)
      → Triple P' m Q
      → Triple P m Q
  Triple-weaken h t = record { at = λ w k. t.at w (h w k) }

  pub Triple-after :
      {Q' : A → World → Type 0} {m : Action A}
      → ((a : A) (w : World) → Q' a w → Q a w)
      → Triple P m Q'
      → Triple P m Q
  Triple-after {Q' = Q'} {m = m} h t = record {
    at = λ w k. let (r, v) = m w in after_Returns Q' Q h r v (t.at w k);
  }

  pub Triple-pure : (a : A) → ((w : World) → P w → Q a w) → Triple P (pure a) Q
  unfolding pure
  Triple-pure a h = record { at = h }

  pub Triple-raise : (e : Error) → Triple P (raise e) Q
  unfolding raise
  Triple-raise e = record { at = λ w h. tt }

module _ {A : Type 0} (P : World → Type 0) where
  pub Triple-gets : (f : Database → A) → Triple P (gets f) (λ a w. P w × (f w.db ≡ a))
  unfolding gets
  Triple-gets f = record { at = λ w h. (h, refl) }

  pub Triple-or_raise :
      (o : Option A) (e : Error) → Triple P (or_raise o e) (λ a w. P w × (o ≡ some a))
  unfolding or_raise
  Triple-or_raise none e = record { at = λ w h. tt }
  Triple-or_raise (some a) e = record { at = λ w h. (h, refl) }

  pub Triple-lift : (r : Result A) → Triple P (lift r) (λ a w. P w × (r ≡ ok a))
  unfolding lift
  Triple-lift (ok a) = record { at = λ w h. (h, refl) }
  Triple-lift (err e) = record { at = λ w h. tt }

  -- a query that finds a row, or raises
  pub Triple-find :
      (f : Database → Option A) (e : Error)
      → Triple P (gets f >>= λ found. or_raise found e) (λ a w. P w × (f w.db ≡ some a))
  unfolding ◌>>=◌
  Triple-find f e = record { at = λ w h. found-Returns f e w h (f w.db) refl }
    where
      found-Returns :
          (f : Database → Option A) (e : Error) (w : World)
          → P w
          → (o : Option A) → f w.db ≡ o
          → Returns (λ a v. P v × (f v.db ≡ some a)) (or_raise o e w)
      found-Returns f e w h none q = tt
      found-Returns f e w h (some a) q = (h, q)

module _ {P : World → Type 0} {Q : ⊤ → World → Type 0} where
  pub Triple-write :
      (f : Database → Database)
      → ((w : World) → P w → Q tt (record w { db = f w.db }))
      → Triple P (write f) Q
  unfolding write
  Triple-write f h = record { at = h }

  pub Triple-flush :
      (fits : Database → Bool) (f : Database → Database)
      → ((w : World) → P w → fits w.db ≡ true → Q tt (record w { db = f w.db }))
      → Triple P (flush fits f) Q
  unfolding flush
  Triple-flush fits f h = record { at = λ w pw. go w (fits w.db) (h w pw) }
    where
      go :
          (w : World) (b : Bool)
          → (b ≡ true → Q tt (record w { db = f w.db }))
          → Returns Q (if b then (ok tt, record w { db = f w.db }) else (err Error.integrity, w))
      go w true k = k refl
      go w false k = tt

pub Triple-raise_if :
    (P : World → Type 0) (b : Bool) (e : Error) → Triple P (raise_if b e) (λ _ w. P w × (b ≡ false))
unfolding raise_if
Triple-raise_if P true e = record { at = λ w h. tt }
Triple-raise_if P false e = record { at = λ w h. (h, refl) }

module _ ⦃p : Platform⦄ (P : Database → Type 0) where
  pub Keeps-now : Keeps P now
  unfolding now
  Keeps-now = record { at = λ w h. h }

  pub Keeps-new_uuid : Keeps P new_uuid
  unfolding new_uuid
  Keeps-new_uuid = record { at = λ w h. h }

  pub Keeps-new_token : Keeps P new_token
  unfolding new_token
  Keeps-new_token = record { at = λ w h. h }

  pub Keeps-publish : (job : Job) → Keeps P (publish job)
  unfolding publish
  Keeps-publish job = record { at = λ w h. go w h (p.broker_accepts w.ticks) }
    where
      go :
          (w : World)
          → P w.db
          → (b : Bool)
          → Returns
              (λ _ v. P v.db)
              (if b then (ok tt, record w { ticks = w.ticks + 1; jobs = w.jobs ++ job ∷ [] }) else (
                err (Error.runtime_error "broker unavailable"),
                record w { ticks = w.ticks + 1 },
              ))
      go w h true = h
      go w h false = tt

-- A request keeps what its action keeps: if the action raises, the database is what it was.
module _ {A : Type 0} (P : Database → Type 0) where
  settle-Keeps :
      (d : Database) (r : Result A) (w : World)
      → P d
      → Returns (λ _ v. P v.db) (r, w)
      → P (settle d r w).1.db
  settle-Keeps d (ok a) w h k = k
  settle-Keeps d (err e) w h k = h

  pub request-Keeps : (m : Action A) → Keeps P m → (w : World) → P w.db → P (request m w).1.db
  unfolding request
  request-Keeps m k w h = let (r, v) = m w in settle-Keeps w.db r v h (k.at w h)

  settle_returns :
      (d : Database) (r : Result A) (w v : World) (a : A)
      → settle d r w ≡ (ok a, v)
      → ◌≡◌ {A = Result A × World} (r, w) (ok a, v)
  settle_returns d (ok b) w v a e = e
  settle_returns d (err x) w v a e = absurd (err_ok (ap (λ q. q.0) e))

-- a request that returns is one whose action returned
pub request_returns :
    {A : Type 0} (m : Action A) (w v : World) (a : A) → request m w ≡ (ok a, v) → m w ≡ (ok a, v)
unfolding request
request_returns m w v a e = let (r, u) = m w in settle_returns (λ d. ⊤) w.db r u v a e

-- what a triple says of a run that returned
pub Triple-run :
    {A : Type 0} {P : World → Type 0} {m : Action A} {Q : A → World → Type 0}
    → Triple P m Q
    → (w v : World) (a : A) → P w
    → m w ≡ (ok a, v)
    → Q a v
Triple-run {Q = Q} t w v a h e = subst (λ r. Returns Q r) e (t.at w h)

pub Keeps-count_metric :
    (P : Database → Type 0) (name label : String) → Keeps P (count_metric name label)
unfolding count_metric
Keeps-count_metric P name label = record { at = λ w h. h }

-- a run of the first step, and of a request, that returns
pub bind_ok :
    {A B : Type 0} (m : Action A) (f : A → Action B) (w v : World) (a : A)
    → m w ≡ (ok a, v)
    → (m >>= f) w ≡ f a v
unfolding ◌>>=◌
bind_ok m f w v a e = rw e refl

pub request_ok :
    {A : Type 0} (m : Action A) (w v : World) (a : A) → m w ≡ (ok a, v) → request m w ≡ (ok a, v)
unfolding request
request_ok m w v a e = rw e refl

pass_returns :
    {A B : Type 0} (f : A → Action B) (r : Result A) (w v : World) (b : B)
    → pass f r w ≡ (ok b, v)
    → (a : A) × (r ≡ ok a) × (f a w ≡ (ok b, v))
pass_returns f (ok a) w v b e = (a, refl, e)
pass_returns f (err x) w v b e = absurd (err_ok (ap (λ q. q.0) e))

-- a step behind which something returned has returned
pub bind_returns :
    {A B : Type 0} (m : Action A) (f : A → Action B) (w v : World) (b : B)
    → (m >>= f) w ≡ (ok b, v)
    → (a : A) × (u : World) × (m w ≡ (ok a, u)) × (f a u ≡ (ok b, v))
unfolding ◌>>=◌
bind_returns {A = A} m f w v b e =
    let (r, u) = m w in
    let (a, same, rest) = pass_returns f r u v b e in
    (a, u, ap (λ (r : Result A). (r, u)) same, rest)

-- a guard before something that returned has passed
pub guard_passes :
    {A : Type 0} (b : Bool) (e : Error) (m : Action A) (w v : World) (x : A)
    → (raise_if (not b) e >> m) w ≡ (ok x, v)
    → b ≡ true
guard_passes b e m w v x ran =
    let (u, z, asked, rest) = bind_returns (raise_if (not b) e) (λ _. m) w v x ran in
    unnegated b (Triple-run (Triple-raise_if (λ w. ⊤) (not b) e) w z u tt asked).1

-- two facts of one action
pub Triple-and :
    {A : Type 0} (P P' : World → Type 0) (Q Q' : A → World → Type 0) (m : Action A)
    → Triple P m Q
    → Triple P' m Q'
    → Triple (λ w. P w × P' w) m (λ a w. Q a w × Q' a w)
Triple-and {A = A} P P' Q Q' m t t' = record {
  at = λ w h. go (m w).0 (m w).1 (t.at w h.0) (t'.at w h.1);
}
  where
    go :
        (r : Result A) (v : World)
        → Returns Q (r, v)
        → Returns Q' (r, v)
        → Returns (λ a w. Q a w × Q' a w) (r, v)
    go (ok a) v h k = (h, k)
    go (err e) v h k = tt
