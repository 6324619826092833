-- ===== src/Core/Listing.antt =====
-- The list endpoints without a cursor: SELECT … WHERE … ORDER BY created_at DESC LIMIT …, and what
-- such a list shows of a table.
use mathlib.Core.List.{Memᴰ}
use tenantflow_api.Prelude.{
  ℕ, zero, suc, ◌≡◌, refl, sym, ap, subst, ◌∙◌, ◌≤◌, Bool, true, ◌⊎◌, inl, inr, List, [], ◌∷◌, All,
  length, take, leb, select, place, order_by, arith, Bool-cases,
}
use tenantflow_api.Core.Paging.{All-place, All-map}

module _ {A : Type 0} where
  order_by-All :
      (P : A → Type 0) (before : A → A → Bool) (xs : List A) → All P xs → All P (order_by before xs)
  unfolding order_by
  order_by-All P before [] h = tt
  order_by-All P before (x ∷ xs) h =
      All-place P before x (order_by before xs) h.0 (order_by-All P before xs h.1)

  take-All : (P : A → Type 0) (n : ℕ) (xs : List A) → All P xs → All P (take n xs)
  take-All P zero xs h = tt
  take-All P (suc n) [] h = tt
  take-All P (suc n) (x ∷ xs) h = (h.0, take-All P n xs h.1)

  pub All-Mem : (P : A → Type 0) (y : A) (xs : List A) → All P xs → Memᴰ y xs → P y
  All-Mem P y [] h m = elim m [ ]
  All-Mem P y (x ∷ xs) h (Memᴰ.head e) = subst P (sym e) h.0
  All-Mem P y (x ∷ xs) h (Memᴰ.tail m) = All-Mem P y xs h.1 m

  length-take : (n : ℕ) (xs : List A) → length (take n xs) ≤ n
  length-take zero xs = omega arith
  length-take (suc n) [] = omega arith
  length-take (suc n) (x ∷ xs) = let k = length-take n xs in omega arith

  take-full : (n : ℕ) (xs : List A) → (length (take n xs) ≡ n) ⊎ (take n xs ≡ xs)
  take-full zero xs = inl refl
  take-full (suc n) [] = inr refl
  take-full (suc n) (x ∷ xs) = elim (take-full n xs) [
    | inl e ↦ inl (ap suc e)
    | inr e ↦ inr (ap (λ ys. x ∷ ys) e)
  ]

  length-place :
      (before : A → A → Bool) (x : A) (xs : List A) → length (place before x xs) ≡ suc (length xs)
  unfolding place
  length-place before x [] = refl
  length-place before x (y ∷ xs) = elim (Bool-cases (before x y)) [
    | inl b ↦ rw b refl
    | inr b ↦ rw b (ap suc (length-place before x xs))
  ]

  length-order_by : (before : A → A → Bool) (xs : List A) → length (order_by before xs) ≡ length xs
  unfolding order_by
  length-order_by before [] = refl
  length-order_by before (x ∷ xs) =
      length-place before x (order_by before xs) ∙ ap suc (length-order_by before xs)

  placed-Mem :
      (before : A → A → Bool) (x y : A) (xs : List A)
      → (y ≡ x) ⊎ Memᴰ y xs
      → Memᴰ y (place before x xs)
  unfolding place
  placed-Mem before x y [] (inl e) = Memᴰ.head e
  placed-Mem before x y [] (inr m) = elim m [ ]
  placed-Mem before x y (z ∷ xs) h = elim (Bool-cases (before x z)) [
    | inl b ↦ rw b (elim h [ inl e ↦ Memᴰ.head e | inr m ↦ Memᴰ.tail m ])
    | inr b ↦ rw b (elim h [
      | inl e ↦ Memᴰ.tail (placed-Mem before x y xs (inl e))
      | inr (Memᴰ.head e) ↦ Memᴰ.head e
      | inr (Memᴰ.tail m) ↦ Memᴰ.tail (placed-Mem before x y xs (inr m))
    ])
  ]

  order_by-Mem :
      (before : A → A → Bool) (y : A) (xs : List A) → Memᴰ y xs → Memᴰ y (order_by before xs)
  unfolding order_by
  order_by-Mem before y [] m = elim m [ ]
  order_by-Mem before y (x ∷ xs) (Memᴰ.head e) = placed-Mem before x y _ (inl e)
  order_by-Mem before y (x ∷ xs) (Memᴰ.tail m) =
      placed-Mem before x y _ (inr (order_by-Mem before y xs m))

  pub select-Mem :
      (p : A → Bool) (y : A) (xs : List A) → p y ≡ true → Memᴰ y xs → Memᴰ y (select p xs)
  unfolding select
  select-Mem p y [] h m = elim m [ ]
  select-Mem p y (x ∷ xs) h (Memᴰ.head e) = rw (sym (ap p e) ∙ h) (Memᴰ.head e)
  select-Mem p y (x ∷ xs) h (Memᴰ.tail m) = elim (Bool-cases (p x)) [
    | inl b ↦ rw b (Memᴰ.tail (select-Mem p y xs h m))
    | inr b ↦ rw b (select-Mem p y xs h m)
  ]

  pub select-passes : (p : A → Bool) (xs : List A) → All (λ x. p x ≡ true) (select p xs)
  unfolding select
  select-passes p [] = tt
  select-passes p (x ∷ xs) = elim (Bool-cases (p x)) [
    | inl b ↦ rw b (b, select-passes p xs)
    | inr b ↦ rw b (select-passes p xs)
  ]

module _ {A : Type 0} (at : A → ℕ) where
  abbrev pub newer : A → A → Bool
  newer a b = leb (at b) (at a)

  -- every row is at least as new as the ones behind it
  abbrev pub Descending : List A → Type 0
  Descending [] = Unit
  Descending (x ∷ xs) = All (λ y. at y ≤ at x) xs × Descending xs

  -- What a list shows: rows that pass, the newest first, as many as the limit or all; a row that passes
  -- and is not shown is not newer than any that is.
  pub record IsNewest (p : A → Bool) (limit : ℕ) (table shown : List A) : Type 0 where
    pub passes : All (λ x. p x ≡ true) shown
    pub descending : Descending shown
    pub bounded : length shown ≤ limit
    pub filled : (length shown ≡ limit) ⊎ (length shown ≡ length (select p table))
    pub complete : (y : A) → Memᴰ y table → p y ≡ true → Memᴰ y shown ⊎ All (λ z. at y ≤ at z) shown

  place-Descending : (x : A) (ys : List A) → Descending ys → Descending (place newer x ys)
  unfolding place
  place-Descending x [] h = (tt, tt)
  place-Descending x (y ∷ ys) h = elim (Bool-cases (newer x y)) [
    | inl e ↦ rw e (
        let k : at y ≤ at x = ground arith in
        ((k, All-map (λ z q. let r : at z ≤ at y = q in omega (arith, k, r)) ys h.0), h))
    | inr e ↦
        rw e (All-place (λ z. at z ≤ at y) newer x ys (ground arith) h.0, place-Descending x ys h.1)
  ]

  order_by-Descending : (xs : List A) → Descending (order_by newer xs)
  unfolding order_by
  order_by-Descending [] = tt
  order_by-Descending (x ∷ xs) = place-Descending x (order_by newer xs) (order_by-Descending xs)

  take-Descending : (n : ℕ) (xs : List A) → Descending xs → Descending (take n xs)
  take-Descending zero xs h = tt
  take-Descending (suc n) [] h = tt
  take-Descending (suc n) (x ∷ xs) h = (take-All _ n xs h.0, take-Descending n xs h.1)

  -- a row of a sorted list is among the first n, or no newer than any of them
  among :
      (n : ℕ) (y : A) (xs : List A)
      → Descending xs
      → Memᴰ y xs
      → Memᴰ y (take n xs) ⊎ All (λ z. at y ≤ at z) (take n xs)
  among zero y xs h m = inr tt
  among (suc n) y [] h m = elim m [ ]
  among (suc n) y (x ∷ xs) h (Memᴰ.head e) = inl (Memᴰ.head e)
  among (suc n) y (x ∷ xs) h (Memᴰ.tail m) = elim (among n y xs h.1 m) [
    | inl k ↦ inl (Memᴰ.tail k)
    | inr k ↦ inr (All-Mem (λ z. at z ≤ at x) y xs h.0 m, k)
  ]

  pub listing_lem :
      (p : A → Bool) (limit : ℕ) (table : List A)
      → IsNewest p limit table (take limit (order_by newer (select p table)))
  listing_lem p limit table =
      let sorted = order_by-Descending (select p table) in
      record {
        passes =
            take-All _ limit _ (order_by-All (λ x. p x ≡ true) newer _ (select-passes p table));
        descending = take-Descending limit _ sorted;
        bounded = length-take limit _;
        filled = elim (take-full limit (order_by newer (select p table))) [
          | inl e ↦ inl e
          | inr e ↦ inr (ap length e ∙ length-order_by newer (select p table))
        ];
        complete =
            λ y m h. among limit y _ sorted (order_by-Mem newer y _ (select-Mem p y table h m));
      }
