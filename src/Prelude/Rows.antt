-- ===== src/Prelude/Rows.antt =====
-- Tables with a key, and the rows of a table that belong to other organizations.
use Prim.Native.Nat.{ℕ}
use mathlib.Core.Path.{◌≡◌, refl, sym, ◌∙◌, ap, subst}
use mathlib.Core.Logic.{◌≢◌, inl, inr}
use mathlib.Core.Bool.{Bool, true, false, not, ◌&&◌, ◌||◌}
use mathlib.Core.Option.{some, some-injective}
use mathlib.Core.List.{Memᴰ, List, [], ◌∷◌, ◌++◌}
use native.Mathlib.Omega.{arith}
use tenantflow_api.Prelude.Tests.{◌==◌, ==→eq, if◌then◌else◌, Bool-cases}
use tenantflow_api.Prelude.Lists.{All, All-append}
use tenantflow_api.Prelude.Tables.{select, scalar, exists, update, delete, scalar_passes}

module _ {A : Type 0} where
  pub All-scalar :
      (P : A → Type 0) (q : A → Bool) (xs : List A) (x : A) → All P xs → scalar q xs ≡ some x → P x
  unfolding scalar
  All-scalar P q [] x h e = cc
  All-scalar P q (y ∷ xs) x h e = elim (Bool-cases (q y)) [
    | inl hit ↦ subst P (some-injective y x (rw hit at e)) h.0
    | inr miss ↦ All-scalar P q xs x h.1 (rw miss at e)
  ]

  pub scalar-Mem : (q : A → Bool) (xs : List A) (x : A) → scalar q xs ≡ some x → Memᴰ x xs
  unfolding scalar
  scalar-Mem q [] x e = cc
  scalar-Mem q (y ∷ xs) x e = elim (Bool-cases (q y)) [
    | inl hit ↦ Memᴰ.head (sym (some-injective y x (rw hit at e)))
    | inr miss ↦ Memᴰ.tail (scalar-Mem q xs x (rw miss at e))
  ]

or_left : (a b : Bool) → (a || b) ≡ false → a ≡ false
or_left a b h = ground arith

or_right : (a b : Bool) → (a || b) ≡ false → b ≡ false
or_right a b h = ground arith

module _ {A : Type 0} (key : A → ℕ) where
  -- no two rows have one key
  abbrev pub Unique : List A → Type 0
  Unique [] = Unit
  Unique (x ∷ xs) = All (λ y. key y ≢ key x) xs × Unique xs

  pub All-fresh :
      (p : A → Bool) (k : ℕ)
      → ((x : A) → key x ≡ k → p x ≡ true)
      → (xs : List A) → exists p xs ≡ false
      → All (λ x. key x ≢ k) xs
  unfolding exists
  All-fresh p k h [] e = tt
  All-fresh p k h (x ∷ xs) e = (
    λ same. cc (h x same, or_left (p x) (exists p xs) e),
    All-fresh p k h xs (or_right (p x) (exists p xs) e),
  )

  pub All-update :
      (P : ℕ → Type 0) (p : A → Bool) (f : A → A)
      → ((x : A) → key (f x) ≡ key x)
      → (xs : List A) → All (λ x. P (key x)) xs
      → All (λ x. P (key x)) (update p f xs)
  unfolding update
  All-update P p f h [] a = tt
  All-update P p f h (x ∷ xs) a = (go (p x), All-update P p f h xs a.1)
    where
      go : (b : Bool) → P (key (if b then f x else x))
      go true = rw (h x) a.0
      go false = a.0

  pub Unique-update :
      (p : A → Bool) (f : A → A)
      → ((x : A) → key (f x) ≡ key x)
      → (xs : List A) → Unique xs
      → Unique (update p f xs)
  unfolding update
  Unique-update p f h [] u = tt
  Unique-update p f h (x ∷ xs) u = (go (p x), Unique-update p f h xs u.1)
    where
      go : (b : Bool) → All (λ y. key y ≢ key (if b then f x else x)) (update p f xs)
      go true = rw (h x) (All-update (λ k. k ≢ key x) p f h xs u.0)
      go false = All-update (λ k. k ≢ key x) p f h xs u.0

module _ {A : Type 0} where
  pub All-delete : (P : A → Type 0) (p : A → Bool) (xs : List A) → All P xs → All P (delete p xs)
  unfolding delete
  All-delete P p [] a = tt
  All-delete P p (x ∷ xs) a = elim (Bool-cases (p x)) [
    | inl hit ↦ rw hit (All-delete P p xs a.1)
    | inr miss ↦ rw miss (a.0, All-delete P p xs a.1)
  ]

module _ {A : Type 0} (key : A → ℕ) where
  pub Unique-delete : (p : A → Bool) (xs : List A) → Unique key xs → Unique key (delete p xs)
  unfolding delete
  Unique-delete p [] u = tt
  Unique-delete p (x ∷ xs) u = elim (Bool-cases (p x)) [
    | inl hit ↦ rw hit (Unique-delete p xs u.1)
    | inr miss ↦ rw miss (All-delete (λ y. key y ≢ key x) p xs u.0, Unique-delete p xs u.1)
  ]

  pub Unique-append :
      (xs : List A) (r : A)
      → Unique key xs
      → All (λ x. key x ≢ key r) xs
      → Unique key (xs ++ r ∷ [])
  Unique-append [] r u f = (tt, tt)
  Unique-append (x ∷ xs) r u f = (
    All-append (λ y. key y ≢ key x) xs (r ∷ []) u.0 (λ e. f.0 (sym e), tt),
    Unique-append xs r u.1 f.1,
  )

  -- an insertion that passes a test on the key keeps the key unique
  pub Unique-insert :
      (p : A → Bool) (xs : List A) (r : A)
      → ((x : A) → key x ≡ key r → p x ≡ true)
      → Unique key xs
      → exists p xs ≡ false
      → Unique key (xs ++ r ∷ [])
  Unique-insert p xs r h u e = Unique-append xs r u (All-fresh key p (key r) h xs e)

module _ {A : Type 0} (org : A → ℕ) (o : ℕ) where
  -- the rows of the other organizations
  abbrev pub outside : List A → List A
  outside xs = select (λ x. not (org x == o)) xs

  pub outside-append : (xs : List A) (r : A) → org r ≡ o → outside (xs ++ r ∷ []) ≡ outside xs
  unfolding select
  outside-append [] r e = ground arith
  outside-append (x ∷ xs) r e = ground (arith, outside-append xs r e)

  pub outside-update :
      (p : A → Bool) (f : A → A)
      → ((x : A) → org (f x) ≡ org x)
      → (xs : List A) → All (λ x. p x ≡ true → org x ≡ o) xs
      → outside (update p f xs) ≡ outside xs
  unfolding select update
  outside-update p f h [] a = refl
  outside-update p f h (x ∷ xs) a = ground (arith, h x, a.0, outside-update p f h xs a.1)

  pub outside-delete :
      (p : A → Bool) (xs : List A)
      → All (λ x. p x ≡ true → org x ≡ o) xs
      → outside (delete p xs) ≡ outside xs
  unfolding select delete
  outside-delete p [] a = refl
  outside-delete p (x ∷ xs) a = ground (arith, a.0, outside-delete p xs a.1)

  All-miss :
      (key : A → ℕ) (k : ℕ) (y : A) (xs : List A)
      → (key y == k) ≡ true
      → All (λ x. key x ≢ key y) xs
      → All (λ x. (key x == k) ≡ true → org x ≡ o) xs
  All-miss key k y [] hit a = tt
  All-miss key k y (x ∷ xs) hit a = (
    λ same. absurd (a.0 (==→eq (key x) k same ∙ sym (==→eq (key y) k hit))),
    All-miss key k y xs hit a.1,
  )

  -- With unique keys, a row that was found within the organization is the only one of its key.
  pub owned :
      (key : A → ℕ) (k : ℕ) (xs : List A) (r : A)
      → Unique key xs
      → scalar (λ x. key x == k && org x == o) xs ≡ some r
      → All (λ x. (key x == k) ≡ true → org x ≡ o) xs
  unfolding scalar
  owned key k [] r u e = tt
  owned key k (x ∷ xs) r u e = elim (Bool-cases (key x == k)) [
    | inl hit ↦ elim (Bool-cases (org x == o)) [
      | inl mine ↦ (λ _. ==→eq (org x) o mine, All-miss key k x xs hit u.0)
      | inr other ↦
          let found = All-scalar (λ y. key y ≢ key x) (λ y. key y == k && org y == o) xs r u.0 in
          let passes = scalar_passes (λ y. key y == k && org y == o) xs r in ground arith
    ]
    | inr miss ↦ (λ h. cc, owned key k xs r u.1 (rw miss at e))
  ]

  -- With unique keys, the rows with the key of a row that was found are in its organization.
  pub owned_row :
      (key : A → ℕ) (q : A → Bool) (xs : List A) (r : A)
      → Unique key xs
      → scalar q xs ≡ some r
      → org r ≡ o
      → All (λ x. (key x == key r) ≡ true → org x ≡ o) xs
  unfolding scalar
  owned_row key q [] r u e mine = tt
  owned_row key q (x ∷ xs) r u e mine = elim (Bool-cases (q x)) [
    | inl hit ↦
        let same = some-injective x r (rw hit at e) in
        (λ _. ap org same ∙ mine, All-miss key (key r) x xs (ground arith) u.0)
    | inr miss ↦ (
      λ h. absurd (
          All-scalar (λ y. key y ≢ key x) q xs r u.0 (rw miss at e)
            (sym (==→eq (key x) (key r) h))),
      owned_row key q xs r u.1 (rw miss at e) mine,
    )
  ]

-- Statements that touch only rows that a query does not return leave what it returns.
module _ {A : Type 0} (q p : A → Bool) where
  pub select-update :
      (f : A → A)
      → ((x : A) → q (f x) ≡ false)
      → (xs : List A) → All (λ x. p x ≡ true → q x ≡ false) xs
      → select q (update p f xs) ≡ select q xs
  unfolding select update
  select-update f h [] a = refl
  select-update f h (x ∷ xs) a = ground (arith, h x, a.0, select-update f h xs a.1)

  pub select-delete :
      (xs : List A) → All (λ x. p x ≡ true → q x ≡ false) xs → select q (delete p xs) ≡ select q xs
  unfolding select delete
  select-delete [] a = refl
  select-delete (x ∷ xs) a = ground (arith, a.0, select-delete xs a.1)

-- With unique keys, a property of a row that was found holds of all rows of its key.
pub All-found :
    {A : Type 0} (key : A → ℕ) (P : A → Type 0) (q : A → Bool) (xs : List A) (r : A)
    → Unique key xs
    → scalar q xs ≡ some r
    → P r
    → All (λ x. (key x == key r) ≡ true → P x) xs
unfolding scalar
All-found key P q [] r u e h = tt
All-found key P q (x ∷ xs) r u e h = elim (Bool-cases (q x)) [
  | inl hit ↦
      let same = some-injective x r (rw hit at e) in
      (λ _. subst P (sym same) h, others key P r x xs same u.0)
  | inr miss ↦ (
    λ k.
        absurd (
          All-scalar (λ y. key y ≢ key x) q xs r u.0 (rw miss at e)
            (sym (==→eq (key x) (key r) k))),
    All-found key P q xs r u.1 (rw miss at e) h,
  )
]
  where
    others :
        {A : Type 0} (key : A → ℕ) (P : A → Type 0) (r x : A) (xs : List A)
        → x ≡ r
        → All (λ y. key y ≢ key x) xs
        → All (λ y. (key y == key r) ≡ true → P y) xs
    others key P r x [] same a = tt
    others key P r x (y ∷ xs) same a = (
      λ k. absurd (a.0 (==→eq (key y) (key r) k ∙ sym (ap key same))),
      others key P r x xs same a.1,
    )
