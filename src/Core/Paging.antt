-- ===== src/Core/Paging.antt =====
-- app/core/pagination.py and the list endpoints: the order of a page, and what a cursor leaves out.
use tenantflow_api.Prelude.{
  ℕ, ◌≡◌, ◌≢◌, refl, ◌∙◌, sym, ap, Bool, true, false, List, [], ◌∷◌, All, select, place, order_by,
  Unique, arith, Bool-cases, inl, inr,
}
use tenantflow_api.Core.Pagination.{newest}

module _ {A : Type 0} where
  pub All-select : (P : A → Type 0) (p : A → Bool) (xs : List A) → All P xs → All P (select p xs)
  unfolding select
  All-select P p [] h = tt
  All-select P p (x ∷ xs) h = elim (Bool-cases (p x)) [
    | inl y ↦ rw y (h.0, All-select P p xs h.1)
    | inr n ↦ rw n (All-select P p xs h.1)
  ]

  pub All-place :
      (P : A → Type 0) (before : A → A → Bool) (x : A) (xs : List A)
      → P x
      → All P xs
      → All P (place before x xs)
  unfolding place
  All-place P before x [] h k = (h, tt)
  All-place P before x (y ∷ ys) h k = elim (Bool-cases (before x y)) [
    | inl e ↦ rw e (h, k)
    | inr e ↦ rw e (k.0, All-place P before x ys h k.1)
  ]

  pub All-map : {P Q : A → Type 0} → ((x : A) → P x → Q x) → (xs : List A) → All P xs → All Q xs
  All-map f [] h = tt
  All-map f (x ∷ xs) h = (f x h.0, All-map f xs h.1)

module _ {A : Type 0} (at id : A → ℕ) where
  abbrev pub before : A → A → Bool
  before a b = newest at id a b

  before_trans : (a b c : A) → before a b ≡ true → before b c ≡ true → before a c ≡ true
  before_trans a b c h k = ground arith

  before-total : (a b : A) → before a b ≡ false → before b a ≡ true
  before-total a b h = ground arith

  -- every row stands before the ones behind it
  abbrev pub Sorted : List A → Type 0
  Sorted [] = Unit
  Sorted (x ∷ xs) = All (λ y. before x y ≡ true) xs × Sorted xs

  place-Sorted : (x : A) (ys : List A) → Sorted ys → Sorted (place before x ys)
  unfolding place
  place-Sorted x [] h = (tt, tt)
  place-Sorted x (y ∷ ys) h = elim (Bool-cases (before x y)) [
    | inl e ↦ rw e ((e, All-map (λ z k. before_trans x y z e k) ys h.0), h)
    | inr e ↦ rw e (
      All-place (λ z. before y z ≡ true) before x ys (before-total x y e) h.0,
      place-Sorted x ys h.1,
    )
  ]

  pub order_by-Sorted : (xs : List A) → Sorted (order_by before xs)
  unfolding order_by
  order_by-Sorted [] = tt
  order_by-Sorted (x ∷ xs) = place-Sorted x (order_by before xs) (order_by-Sorted xs)

  place_front : (x : A) (ys : List A) → All (λ y. before x y ≡ true) ys → place before x ys ≡ x ∷ ys
  unfolding place
  place_front x [] h = refl
  place_front x (y ∷ ys) h = rw h.0 refl

  module _ (p : A → Bool) where
    select-place_in :
        (x : A) (ys : List A)
        → p x ≡ true
        → Sorted ys
        → select p (place before x ys) ≡ place before x (select p ys)
    unfolding select place
    select-place_in x [] e h = rw e refl
    select-place_in x (y ∷ ys) e h = elim (Bool-cases (before x y)) [
      | inl k ↦ rw k (
          rw e (
            sym (
              place_front x (select p (y ∷ ys)) (
                All-select (λ z. before x z ≡ true) p (y ∷ ys)
                  (k, All-map (λ z q. before_trans x y z k q) ys h.0)))))
      | inr k ↦ elim (Bool-cases (p y)) [
        | inl q ↦ rw k (rw q (rw k (ap (λ zs. y ∷ zs) (select-place_in x ys e h.1))))
        | inr q ↦ rw k (rw q (select-place_in x ys e h.1))
      ]
    ]

    select-place_out :
        (x : A) (ys : List A) → p x ≡ false → select p (place before x ys) ≡ select p ys
    unfolding select place
    select-place_out x [] e = rw e refl
    select-place_out x (y ∷ ys) e = elim (Bool-cases (before x y)) [
      | inl k ↦ rw k (rw e refl)
      | inr k ↦ rw k (rw (select-place_out x ys e) refl)
    ]

    -- ORDER BY and WHERE commute
    pub order_by-select :
        (xs : List A) → order_by before (select p xs) ≡ select p (order_by before xs)
    unfolding select order_by
    order_by-select [] = refl
    order_by-select (x ∷ xs) = elim (Bool-cases (p x)) [
      | inl e ↦ rw e (
          rw (order_by-select xs)
            (sym (select-place_in x (order_by before xs) e (order_by-Sorted xs))))
      | inr e ↦ rw e (order_by-select xs ∙ sym (select-place_out x (order_by before xs) e))
    ]

  place-Unique :
      (x : A) (ys : List A)
      → All (λ y. id y ≢ id x) ys
      → Unique id ys
      → Unique id (place before x ys)
  unfolding place
  place-Unique x [] h u = (tt, tt)
  place-Unique x (y ∷ ys) h u = elim (Bool-cases (before x y)) [
    | inl k ↦ rw k (h, u)
    | inr k ↦
        rw k (
          All-place (λ z. id z ≢ id y) before x ys (λ e. h.0 (sym e)) u.0,
          place-Unique x ys h.1 u.1,
        )
  ]

  order_by-All : (P : A → Type 0) (xs : List A) → All P xs → All P (order_by before xs)
  unfolding order_by
  order_by-All P [] h = tt
  order_by-All P (x ∷ xs) h = All-place P before x (order_by before xs) h.0 (order_by-All P xs h.1)

  pub order_by-Unique : (xs : List A) → Unique id xs → Unique id (order_by before xs)
  unfolding order_by
  order_by-Unique [] u = tt
  order_by-Unique (x ∷ xs) u =
      place-Unique x (order_by before xs) (order_by-All (λ y. id y ≢ id x) xs u.0)
        (order_by-Unique xs u.1)
