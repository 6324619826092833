-- ===== src/Prelude/Tables.antt =====
-- A table as the list of its rows, in the order of insertion, and the statements that the
-- program sends: SELECT, its first row, EXISTS, UPDATE and DELETE, each by a test on the row.
use mathlib.Core.Path.{◌≡◌, refl}
use mathlib.Core.Bool.{Bool, true, false, ◌||◌}
use mathlib.Core.Option.{Option, none, some}
use mathlib.Core.List.{List, [], ◌∷◌, ◌++◌}
use native.Mathlib.Omega.{arith}
use tenantflow_api.Prelude.Tests.{if◌then◌else◌}

pub none-some {ℓ} : {A : Type ℓ} {x : A} → none ≡ some x → ⊥
none-some h = cc

module _ {ℓ} {A : Type ℓ} where
  unfoldable pub select : (A → Bool) → List A → List A
  select p [] = []
  select p (x ∷ xs) = let rest = select p xs in if p x then x ∷ rest else rest

  unfoldable pub scalar : (A → Bool) → List A → Option A
  scalar p [] = none
  scalar p (x ∷ xs) = if p x then some x else scalar p xs

  unfoldable pub exists : (A → Bool) → List A → Bool
  exists p [] = false
  exists p (x ∷ xs) = p x || exists p xs

  unfoldable pub update : (A → Bool) → (A → A) → List A → List A
  update p f [] = []
  update p f (x ∷ xs) = (if p x then f x else x) ∷ update p f xs

  unfoldable pub delete : (A → Bool) → List A → List A
  delete p [] = []
  delete p (x ∷ xs) = let rest = delete p xs in if p x then rest else x ∷ rest

  -- ORDER BY: `before x y` tells that `x` may stand in front of `y`
  unfoldable pub place : (A → A → Bool) → A → List A → List A
  place before x [] = x ∷ []
  place before x (y ∷ ys) =
      let rest = place before x ys in if before x y then x ∷ y ∷ ys else y ∷ rest

  unfoldable pub order_by : (A → A → Bool) → List A → List A
  unfolding place
  order_by before [] = []
  order_by before (x ∷ xs) = place before x (order_by before xs)

  -- the row that `scalar` returns passes the test
  pub scalar_passes : (p : A → Bool) (xs : List A) (x : A) → scalar p xs ≡ some x → p x ≡ true
  unfolding scalar
  scalar_passes p [] x h = ground arith
  scalar_passes p (y ∷ xs) x h = ground (arith, scalar_passes p xs x)

  pub scalar-append_none :
      (p : A → Bool) (xs ys : List A) → scalar p xs ≡ none → scalar p (xs ++ ys) ≡ scalar p ys
  unfolding scalar
  scalar-append_none p [] ys h = refl
  scalar-append_none p (x ∷ xs) ys h = ground (arith, scalar-append_none p xs ys)

  pub scalar-append_some :
      (p : A → Bool) (xs ys : List A) (x : A) → scalar p xs ≡ some x → scalar p (xs ++ ys) ≡ some x
  unfolding scalar
  scalar-append_some p [] ys x h = absurd (none-some h)
  scalar-append_some p (y ∷ xs) ys x h = ground (arith, scalar-append_some p xs ys x)

  -- an update that keeps the test leaves the first row that passes it the first
  pub scalar-update :
      (p q : A → Bool) (f : A → A) (xs : List A) (x : A)
      → ((y : A) → p (f y) ≡ p y)
      → scalar p xs ≡ some x
      → scalar p (update q f xs) ≡ some (if q x then f x else x)
  unfolding scalar update
  scalar-update p q f [] x h e = absurd (none-some e)
  scalar-update p q f (y ∷ xs) x h e = let k = h y in ground (arith, scalar-update p q f xs x h)

  -- what no row clashes with is not found
  pub scalar_fresh :
      (p q : A → Bool) (xs : List A)
      → ((x : A) → p x ≡ true → q x ≡ true)
      → exists q xs ≡ false
      → scalar p xs ≡ none
  unfolding scalar exists
  scalar_fresh p q [] h e = refl
  scalar_fresh p q (x ∷ xs) h e = let k = h x in ground (arith, scalar_fresh p q xs h)

  pub scalar_own : (p : A → Bool) (x : A) → p x ≡ true → scalar p (x ∷ []) ≡ some x
  unfolding scalar
  scalar_own p x h = ground arith

  pub exists_own :
      (p : A → Bool) (xs : List A) (x : A) → p x ≡ true → exists p (xs ++ x ∷ []) ≡ true
  unfolding exists
  exists_own p [] x h = ground arith
  exists_own p (y ∷ xs) x h = ground (arith, exists_own p xs x h)
