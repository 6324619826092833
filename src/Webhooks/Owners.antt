-- ===== src/Webhooks/Owners.antt =====
-- The organization that a delivery belongs to: that of its endpoint.
use mathlib.Core.List.{Memᴰ}
use tenantflow_api.Prelude.{
  ℕ, ◌≡◌, ◌≢◌, refl, ◌∙◌, sym, ap, subst, ◌==◌, ==→eq, Bool, true, not, ◌&&◌, Option, none, some,
  List, [], ◌∷◌, All, Unique, outside, select, exists, scalar, scalar-Mem, scalar_passes,
  Bool-cases, inl, inr, and_both, arith,
}
use tenantflow_api.Core.Listing.{select-Mem, select-passes, All-Mem}
use tenantflow_api.Db.Models.{Database, WebhookEndpoint, WebhookDelivery}
use tenantflow_api.Webhooks.Events.{active_endpoints}
use tenantflow_api.Webhooks.Router.{delivery_in}

abbrev pub owner_in : ℕ → Option WebhookEndpoint → ℕ
owner_in o none = o
owner_in o (some e) = e.organization_id

-- the organization of the endpoint with an id; `o`, if there is none
abbrev pub owner_id : ℕ → List WebhookEndpoint → ℕ → ℕ
owner_id o es k = owner_in o (scalar (λ (e : WebhookEndpoint). e.id == k) es)

abbrev pub endpoint_owner : WebhookEndpoint → ℕ
endpoint_owner e = e.organization_id

module _ {A : Type 0} where
  Mem-select : (p : A → Bool) (y : A) (xs : List A) → Memᴰ y (select p xs) → Memᴰ y xs
  unfolding select
  Mem-select p y [] m = elim m [ ]
  Mem-select p y (x ∷ xs) m = elim (Bool-cases (p x)) [
    | inl hit ↦ first (rw hit at m) (Mem-select p y xs)
    | inr miss ↦ Memᴰ.tail (Mem-select p y xs (rw miss at m))
  ]
    where
      first : Memᴰ y (x ∷ select p xs) → (Memᴰ y (select p xs) → Memᴰ y xs) → Memᴰ y (x ∷ xs)
      first (Memᴰ.head e) h = Memᴰ.head e
      first (Memᴰ.tail m) h = Memᴰ.tail (h m)

  All-members : (P : A → Type 0) (xs : List A) → ((y : A) → Memᴰ y xs → P y) → All P xs
  All-members P [] h = tt
  All-members P (x ∷ xs) h = (h x (Memᴰ.head refl), All-members P xs (λ y m. h y (Memᴰ.tail m)))

  exists-Mem :
      (p : A → Bool) (xs : List A) → exists p xs ≡ true → (y : A) × Memᴰ y xs × (p y ≡ true)
  unfolding exists
  exists-Mem p [] h = absurd (ground arith)
  exists-Mem p (x ∷ xs) h = elim (Bool-cases (p x)) [
    | inl y ↦ (x, Memᴰ.head refl, y)
    | inr n ↦ let (y, m, q) = exists-Mem p xs (rw n at h) in (y, Memᴰ.tail m, q)
  ]

  -- with unique keys, two rows of one key are one row
  same_row :
      (key : A → ℕ) (xs : List A) (x y : A)
      → Unique key xs
      → Memᴰ x xs
      → Memᴰ y xs
      → key x ≡ key y
      → x ≡ y
  same_row key [] x y u m n e = elim m [ ]
  same_row key (z ∷ zs) x y u (Memᴰ.head a) (Memᴰ.head b) e = a ∙ sym b
  same_row key (z ∷ zs) x y u (Memᴰ.head a) (Memᴰ.tail n) e =
      absurd (All-Mem (λ v. key v ≢ key z) y zs u.0 n (sym e ∙ ap key a))
  same_row key (z ∷ zs) x y u (Memᴰ.tail m) (Memᴰ.head b) e =
      absurd (All-Mem (λ v. key v ≢ key z) x zs u.0 m (e ∙ ap key b))
  same_row key (z ∷ zs) x y u (Memᴰ.tail m) (Memᴰ.tail n) e = same_row key zs x y u.1 m n e

-- an endpoint of `o` in a table that has the other organizations' endpoints of `es` and unique ids:
-- in `es`, no other organization has its id
module _ (o : ℕ) (es ds : List WebhookEndpoint)
    (same : outside endpoint_owner o ds ≡ outside endpoint_owner o es)
    (keyed : Unique (λ (e : WebhookEndpoint). e.id) ds) where
  pub owner_lem : (e : WebhookEndpoint) → Memᴰ e ds → e.organization_id ≡ o → owner_id o es e.id ≡ o
  owner_lem e here mine = go (scalar (λ (x : WebhookEndpoint). x.id == e.id) es) refl
    where
      go :
          (found : Option WebhookEndpoint)
          → scalar (λ (x : WebhookEndpoint). x.id == e.id) es ≡ found
          → owner_in o found ≡ o
      go none h = refl
      go (some f) h = elim (Bool-cases (f.organization_id == o)) [
        | inl y ↦ ==→eq f.organization_id o y
        | inr n ↦
            let q = λ (x : WebhookEndpoint). not (x.organization_id == o) in
            let there : Memᴰ f ds = Mem-select q f ds (
              subst (Memᴰ f) (sym same) (
                select-Mem q f es (ap not n)
                  (scalar-Mem (λ (x : WebhookEndpoint). x.id == e.id) es f h))) in
            let one =
              same_row (λ (x : WebhookEndpoint). x.id) ds f e keyed there here
                (==→eq f.id e.id (scalar_passes (λ (x : WebhookEndpoint). x.id == e.id) es f h)) in
            ap (λ x. x.organization_id) one ∙ mine
      ]

-- the endpoints that an event of `o` goes to, and the endpoint of a delivery that is found within `o`
pub active-owned :
    (o : ℕ) (es : List WebhookEndpoint) (d : Database)
    → outside endpoint_owner o d.webhook_endpoints ≡ outside endpoint_owner o es
    → Unique (λ (e : WebhookEndpoint). e.id) d.webhook_endpoints
    → All (λ e. owner_id o es e.id ≡ o) (active_endpoints o d)
unfolding active_endpoints
active-owned o es d same keyed =
    let q = λ (e : WebhookEndpoint). e.organization_id == o && e.is_active in
    All-members _ _ λ e m.
      owner_lem o es d.webhook_endpoints same keyed e (Mem-select q e d.webhook_endpoints m) (
        ==→eq e.organization_id o
          (and_both (e.organization_id == o) e.is_active
            (All-Mem (λ e. q e ≡ true) e _ (select-passes q d.webhook_endpoints) m)).0)

pub delivery-owned :
    (o : ℕ) (es : List WebhookEndpoint) (d : Database) (x : WebhookDelivery)
    → outside endpoint_owner o d.webhook_endpoints ≡ outside endpoint_owner o es
    → Unique (λ (e : WebhookEndpoint). e.id) d.webhook_endpoints
    → delivery_in o d x ≡ true
    → owner_id o es x.endpoint_id ≡ o
unfolding delivery_in
delivery-owned o es d x same keyed h =
    let (e, m, passes) =
      exists-Mem (λ (e : WebhookEndpoint). e.id == x.endpoint_id && e.organization_id == o)
        d.webhook_endpoints h in
    let (one, two) = and_both (e.id == x.endpoint_id) (e.organization_id == o) passes in
    subst (λ k. owner_id o es k ≡ o) (==→eq e.id x.endpoint_id one)
      (owner_lem o es d.webhook_endpoints same keyed e m (==→eq e.organization_id o two))
