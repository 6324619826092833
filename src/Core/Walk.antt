-- ===== src/Core/Walk.antt =====
-- app/core/pagination.py and the list endpoints: a client that follows the cursors sees each row
-- once.
use tenantflow_api.Prelude.{
  ℕ, zero, suc, ◌+◌, ◌≤◌, ◌≡◌, ◌≢◌, refl, ◌∙◌, sym, ap, subst, Bool, true, false, List, [], ◌∷◌,
  ◌++◌, length, take, drop, take-append-drop, All, select, order_by, Unique, arith, Bool-cases, inl,
  inr, Option, none, some, if◌then◌else◌, ltb,
}
use tenantflow_api.Core.Pagination.{Cursor, Page, after, last, page_of}
use tenantflow_api.Core.Paging.{
  Sorted, before, All-map, order_by-Sorted, order_by-select, order_by-Unique,
}
use tenantflow_api.Core.Slices.{
  take-take, longer_take, append_nil, take-nil, take_all, drop_all, drop-drop, select-All, All-both,
}

module _ {A : Type 0} (at id : A → ℕ) where
  abbrev position : A → Cursor
  position x = record { created_at = at x; entity_id = id x }

  last-some : (x : A) (xs : List A) → (c : Cursor) × (last at id (x ∷ xs) ≡ some c)
  unfolding last
  last-some x [] = (position x, refl)
  last-some x (y ∷ ys) = last-some y ys

  last_of :
      (Q : A → Type 0) (n : ℕ) (xs : List A) (c : Cursor)
      → All Q xs
      → last at id (take n xs) ≡ some c
      → (z : A) × (position z ≡ c) × Q z
  unfolding last
  last_of Q zero xs c h e = absurd (ground arith)
  last_of Q (suc n) [] c h e = absurd (ground arith)
  last_of Q (suc zero) (x ∷ xs) c h e = (x, cc, h.0)
  last_of Q (suc (suc n)) (x ∷ []) c h e = (x, cc, h.0)
  last_of Q (suc (suc n)) (x ∷ y ∷ ys) c h e = last_of Q (suc n) (y ∷ ys) c h.1 e

  position-some : (x : A) (c : Cursor) → some (position x) ≡ some c → position x ≡ c
  position-some x c e = cc

  behind_self : (x : A) (c : Cursor) → position x ≡ c → after at id (some c) x ≡ false
  behind_self x c e = subst (λ c. after at id (some c) x ≡ false) e (ground arith)

  behind :
      (x z : A) (c : Cursor)
      → position x ≡ c
      → before at id x z ≡ true
      → id z ≢ id x
      → after at id (some c) z ≡ true
  behind x z c e h k = subst (λ c. after at id (some c) z ≡ true) e (ground arith)

  in_front :
      (x z : A) (c : Cursor)
      → position z ≡ c
      → before at id x z ≡ true
      → after at id (some c) x ≡ false
  in_front x z c e h = subst (λ c. after at id (some c) x ≡ false) e (ground arith)

  -- the rows after the one at which a page ends are the rows behind the page
  cut :
      (n : ℕ) (xs : List A) (c : Cursor)
      → Sorted at id xs
      → Unique id xs
      → last at id (take (suc n) xs) ≡ some c
      → select (after at id (some c)) xs ≡ drop (suc n) xs
  unfolding last select
  cut n [] c s u e = absurd (ground arith)
  cut zero (x ∷ xs) c s u e =
      let at_x = position-some x c e in
      rw (behind_self x c at_x) (
        select-All (after at id (some c)) xs (
          All-map (λ z h. behind x z c at_x h.0 h.1) xs
            (All-both (λ z. before at id x z ≡ true) (λ z. id z ≢ id x) xs s.0 u.0)))
  cut (suc n) (x ∷ []) c s u e = rw (behind_self x c (position-some x c e)) refl
  cut (suc n) (x ∷ y ∷ ys) c s u e =
      let (z, at_z, ahead) = last_of (λ z. before at id x z ≡ true) (suc n) (y ∷ ys) c s.0 e in
      let here = in_front x z c at_z ahead in rw here (cut n (y ∷ ys) c s.1 u.1 e)

  last_cons :
      (x : A) (xs : List A) (c : Cursor) → last at id xs ≡ some c → last at id (x ∷ xs) ≡ some c
  unfolding last
  last_cons x [] c e = absurd (ground arith)
  last_cons x (y ∷ ys) c e = e

  last-drop :
      (k n : ℕ) (xs : List A) (c : Cursor)
      → last at id (take n (drop k xs)) ≡ some c
      → last at id (take (k + n) xs) ≡ some c
  unfolding last
  last-drop zero n xs c e = ap (λ j. last at id (take j xs)) (omega arith) ∙ e
  last-drop (suc k) n [] c e = absurd (let e' = rw (take-nil n) at e in ground arith)
  last-drop (suc k) n (x ∷ xs) c e =
      let same : suc k + n ≡ suc (k + n) = omega arith in
      ap (λ j. last at id (take j (x ∷ xs))) same
      ∙ last_cons x (take (k + n) xs) c (last-drop k n xs c e)

  -- a client that asks for a page, and then for the page of its next cursor, and so on, at most
  -- `fuel` times
  unfoldable pub walk : ℕ → ℕ → Option Cursor → List A → List A
  unfolding page_of
  walk zero limit cursor rows = []
  walk (suc fuel) limit cursor rows =
      let page = page_of at id limit cursor rows in
      page.items ++ (elim page.next_position [ none ↦ [] | some c ↦ walk fuel limit (some c) rows ])

  page_lem :
      (limit : ℕ) (cursor : Option Cursor) (rows xs : List A)
      → order_by (before at id) (select (after at id cursor) rows) ≡ xs
      → page_of at id limit cursor rows ≡ record {
        items = take limit xs;
        next_position = if ltb limit (length xs) then last at id (take limit xs) else none;
      }
  unfolding page_of
  page_lem limit cursor rows xs e =
      let one : limit + 1 ≡ suc limit = omega arith in
      rw e (rw one (rw (take-take limit xs) (rw (longer_take limit xs) refl)))

  last-take :
      (m : ℕ) (xs : List A)
      → ltb (suc m) (length xs) ≡ true
      → (c : Cursor) × (last at id (take (suc m) xs) ≡ some c)
  last-take m [] h = absurd (ground arith)
  last-take m (x ∷ xs) h = last-some x (take m xs)

  walk_from :
      (m fuel k : ℕ) (cursor : Option Cursor) (rows : List A)
      → Unique id rows
      → order_by (before at id) (select (after at id cursor) rows)
        ≡ drop k (order_by (before at id) rows)
      → length (order_by (before at id) rows) ≤ k + fuel
      → walk fuel (suc m) cursor rows ≡ drop k (order_by (before at id) rows)
  unfolding walk
  walk_from m zero k cursor rows u e enough =
      sym (drop_all k (order_by (before at id) rows) (omega arith))
  walk_from m (suc fuel) k cursor rows u e enough =
      let S = order_by (before at id) rows in
      let T = drop k S in
      let go : Option Cursor → List A =
        λ o. elim o [ none ↦ [] | some c ↦ walk fuel (suc m) (some c) rows ] in
      let page =
        ap (λ (pg : Page A). pg.items ++ go pg.next_position) (page_lem (suc m) cursor rows T e) in
      page ∙ elim (Bool-cases (ltb (suc m) (length T))) [
        | inr short ↦
            ap
              (λ (b : Bool). take (suc m) T ++ go (if b then last at id (take (suc m) T) else none))
              short
            ∙ append_nil (take (suc m) T)
            ∙ take_all (suc m) T (let h = short in ground arith)
        | inl long ↦
            let (c, ends) = last-take m T long in
            let same : k + suc m ≡ suc (k + m) = omega arith in
            let more =
              cut (k + m) S c (order_by-Sorted at id rows) (order_by-Unique at id rows u)
                (ap (λ j. last at id (take j S)) (sym same) ∙ last-drop k (suc m) S c ends) in
            let next =
              walk_from m fuel (suc (k + m)) (some c) rows u
                (order_by-select at id (after at id (some c)) rows ∙ more)
                (omega (arith, enough)) in
            ap
              (λ (b : Bool). take (suc m) T ++ go (if b then last at id (take (suc m) T) else none))
              long
            ∙ ap (λ o. take (suc m) T ++ go o) ends
            ∙ ap (λ zs. take (suc m) T ++ zs)
                (next ∙ ap (λ j. drop j S) (sym same) ∙ sym (drop-drop k (suc m) S))
            ∙ take-append-drop (suc m) T
      ]

  -- Following the cursors from the first page, with pages of any positive size, lists the rows as
  -- the query without a limit lists them, in its order and none twice, if the ids are unique and
  -- nothing is written in between; as many requests as there are rows are enough.
  pub walk_lem :
      (m : ℕ) (rows : List A)
      → Unique id rows
      → walk (length (order_by (before at id) rows)) (suc m) none rows
        ≡ order_by (before at id) rows
  walk_lem m rows u =
      walk_from m (length (order_by (before at id) rows)) 0 none rows u
        (ap (order_by (before at id)) (select-All (after at id none) rows (all_pass rows)))
        (omega arith)
    where
      all_pass : (xs : List A) → All (λ x. after at id none x ≡ true) xs
      all_pass [] = tt
      all_pass (x ∷ xs) = (refl, all_pass xs)
