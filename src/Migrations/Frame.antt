-- ===== src/Migrations/Frame.antt =====
-- alembic/versions: a migration that runs on its own catalogue runs beside other tables as well, and
-- `downgrade` undoes `upgrade`.
use tenantflow_api.Prelude.{
  ◌≡◌, refl, ◌∙◌, ap, sym, String, Bool, true, false, not, ◌||◌, ◌&&◌, some, List, [], ◌∷◌, ◌++◌,
  All, exists, delete, Bool-cases, inl, inr, arith, and_both, guard_some, Option-cases, none-some,
}
use tenantflow_api.Migrations.Catalog.{
  ForeignKey, Table, Operation, Catalog, empty, is_table, is_index, is_taken, is_target, are_free,
  relations, has_relation, is_formed, are_resolved, is_indexed, refers_to, is_index_of, execute,
  continue, run, is_key,
}
use tenantflow_api.Migrations.Initial.{upgrade, downgrade, built}

module _ {A : Type 0} (p : A → Bool) where
  exists-append : (xs ys : List A) → exists p (xs ++ ys) ≡ (exists p xs || exists p ys)
  unfolding exists
  exists-append [] ys = refl
  exists-append (x ∷ xs) ys = let k = exists-append xs ys in ground arith

  exists_more : (xs ys : List A) → exists p xs ≡ true → exists p (xs ++ ys) ≡ true
  exists_more xs ys h = let k = exists-append xs ys in ground arith

  exists_same : (xs ys : List A) → exists p ys ≡ false → exists p (xs ++ ys) ≡ exists p xs
  exists_same xs ys h = let k = exists-append xs ys in ground arith

  delete_none : (xs : List A) → exists p xs ≡ false → delete p xs ≡ xs
  unfolding exists delete
  delete_none [] h = refl
  delete_none (x ∷ xs) h = ground (arith, delete_none xs)

  delete-append : (xs ys : List A) → exists p ys ≡ false → delete p (xs ++ ys) ≡ delete p xs ++ ys
  unfolding delete
  delete-append [] ys h = delete_none ys h
  delete-append (x ∷ xs) ys h =
      let k = delete-append xs ys h in
      elim (Bool-cases (p x)) [ inl e ↦ rw e k | inr e ↦ rw e (ap (λ t. x ∷ t) k) ]

resolved_more :
    (fs : List ForeignKey) (ts us : List Table)
    → are_resolved fs ts ≡ true
    → are_resolved fs (ts ++ us) ≡ true
unfolding are_resolved
resolved_more [] ts us h = refl
resolved_more (f ∷ fs) ts us h =
    let k = and_both (exists (is_target f) ts) (are_resolved fs ts) h in
    rw (exists_more (is_target f) ts us k.0) (resolved_more fs ts us k.1)

-- the tables and indexes of both
abbrev pub beside : Catalog → Catalog → Catalog
beside a c = record { tables = a.tables ++ c.tables; indexes = a.indexes ++ c.indexes }

-- what an operation names is not in the catalogue, nor does that refer to it
abbrev pub IsApart : Catalog → Operation → Type 0
IsApart c (Operation.create_table t) = are_free (relations t) c ≡ true
IsApart c (Operation.create_index x) = is_taken x.name c ≡ false
IsApart c (Operation.drop_table name) =
    (exists (is_table name) c.tables ≡ false)
    × (exists (refers_to name) c.tables ≡ false)
    × (exists (is_index_of name) c.indexes ≡ false)

taken_same :
    (name : String) (a c : Catalog)
    → is_taken name c ≡ false
    → is_taken name (beside a c) ≡ is_taken name a
unfolding is_taken
taken_same name a c h =
    let t = exists-append (has_relation name) a.tables c.tables in
    let i = exists-append (is_index name) a.indexes c.indexes in ground arith

free_both :
    (names : List String) (a c : Catalog)
    → are_free names a ≡ true
    → are_free names c ≡ true
    → are_free names (beside a c) ≡ true
unfolding are_free
free_both [] a c h k = refl
free_both (name ∷ names) a c h k =
    let (free, rest) = and_both (not (is_taken name a)) (are_free names a) h in
    let (away, others) = and_both (not (is_taken name c)) (are_free names c) k in
    let same = taken_same name a c (ground arith) in
    let others = free_both names a c rest others in ground arith

frame :
    (c : Catalog) (op : Operation) (a b : Catalog)
    → IsApart c op
    → execute op a ≡ some b
    → execute op (beside a c) ≡ some (beside b c)
unfolding execute
frame c (Operation.create_table t) a b h e =
    let (fits, made) = guard_some _ _ b e in
    let (free, rest) =
      and_both (are_free (relations t) a)
        (is_formed t && are_resolved t.foreign_keys (t ∷ a.tables)) fits in
    let (formed, resolved) =
      and_both (is_formed t) (are_resolved t.foreign_keys (t ∷ a.tables)) rest in
    rw (free_both (relations t) a c free h) (
      rw formed (
        rw (resolved_more t.foreign_keys (t ∷ a.tables) c.tables resolved)
          (ap (λ d. some (beside d c)) made)))
frame c (Operation.create_index x) a b h e =
    let (fits, made) = guard_some _ _ b e in
    let k = and_both (not (is_taken x.name a)) (exists (is_indexed x) a.tables) fits in
    rw (taken_same x.name a c h) (
      rw k.0
        (rw (exists_more (is_indexed x) a.tables c.tables k.1) (ap (λ d. some (beside d c)) made)))
frame c (Operation.drop_table name) a b h e =
    let (fits, made) = guard_some _ _ b e in
    let k =
      and_both (exists (is_table name) a.tables) (not (exists (refers_to name) a.tables)) fits in
    rw (exists_more (is_table name) a.tables c.tables k.0) (
      rw (exists_same (refers_to name) a.tables c.tables h.1) (
        rw k.1 (
          rw (delete-append (is_table name) a.tables c.tables h.0) (
            rw (delete-append (is_index_of name) a.indexes c.indexes h.2)
              (ap (λ d. some (beside d c)) made)))))

some_inj : (a b : Catalog) → some a ≡ some b → a ≡ b
some_inj a b h = ground arith

run_frame :
    (c : Catalog) (ops : List Operation) (a b : Catalog)
    → All (IsApart c) ops
    → run ops a ≡ some b
    → run ops (beside a c) ≡ some (beside b c)
unfolding run
run_frame c [] a b h e = ap (λ d. some (beside d c)) (some_inj a b e)
run_frame c (op ∷ ops) a b h e = elim (Option-cases (execute op a)) [
  | inl failed ↦ absurd (none-some (sym (ap (continue (λ d. run ops d)) failed) ∙ e))
  | inr (d, made) ↦
      ap (continue (λ d. run ops d)) (frame c op a d h.0 made)
      ∙ run_frame c ops d b h.1 (sym (ap (continue (λ d. run ops d)) made) ∙ e)
]

-- The migration runs on every catalogue that has no relation of a name that it gives, and no table or
-- index that refers to one of its tables; and what it made is undone by `downgrade`, which leaves that
-- catalogue as it was.
pub downgrade-upgrade :
    (c : Catalog)
    → All (IsApart c) upgrade
    → All (IsApart c) downgrade
    → (d : Catalog) × (run upgrade c ≡ some d) × (run downgrade d ≡ some c)
unfolding run execute upgrade downgrade is_taken are_free is_formed are_resolved is_key exists
    delete
downgrade-upgrade c up down = (
  beside built c,
  run_frame c upgrade empty built up refl,
  run_frame c downgrade built empty down refl,
)
