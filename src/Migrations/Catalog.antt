-- ===== src/Migrations/Catalog.antt =====
-- The operations of a migration (op.create_table, op.create_index, op.drop_table) on the catalogue
-- of PostgreSQL, with what it refuses of the names of relations, of columns and of keys: tables,
-- indexes, primary keys and UNIQUEs share their names, which are given once; the columns of an index,
-- a UNIQUE or a foreign key are columns of its table; a foreign key refers to columns that a primary
-- key or a UNIQUE holds; and a table that another one refers to is not dropped. Types, checks and the
-- conditions of indexes are kept as they are written and not examined.
use Prim.Native.String.{◌++◌ as str_append}
use tenantflow_api.Prelude.{
  ℕ, String, Bool, true, false, not, ◌&&◌, ◌||◌, Option, none, some, List, [], ◌∷◌, str_eq, exists,
  delete, if◌then◌else◌, map,
}

pub data ColumnType : Type 0 where
  uuid text boolean timestamp integer big_integer jsonb : ColumnType
  string : ℕ → ColumnType

pub record Column : Type 0 where
  pub name : String
  pub type : ColumnType
  pub nullable : Bool
  pub primary_key : Bool
  pub server_default : Bool

pub data OnDelete : Type 0 where
  no_action cascade restrict set_null : OnDelete

-- FOREIGN KEY (columns) REFERENCES table (targets) ON DELETE …
pub record ForeignKey : Type 0 where
  pub columns : List String
  pub table : String
  pub targets : List String
  pub on_delete : OnDelete

-- a named constraint, with its columns or its text
pub record Unique : Type 0 where
  pub name : String
  pub columns : List String

pub record Check : Type 0 where
  pub name : String
  pub condition : String

pub record Table : Type 0 where
  pub name : String
  pub columns : List Column
  pub uniques : List Unique
  pub checks : List Check
  pub foreign_keys : List ForeignKey

pub record Index : Type 0 where
  pub name : String
  pub table : String
  pub columns : List String
  pub is_unique : Bool
  pub condition : Option String

pub data Operation : Type 0 where
  create_table : Table → Operation
  create_index : Index → Operation
  drop_table : String → Operation

pub record Catalog : Type 0 where
  pub tables : List Table
  pub indexes : List Index

abbrev pub empty : Catalog
empty = record { tables = []; indexes = [] }

abbrev pub is_table : String → Table → Bool
is_table name t = str_eq t.name name

abbrev pub is_index : String → Index → Bool
is_index name x = str_eq x.name name

-- the relations that a table brings with it: itself, its primary key, named by the convention of
-- app/db/base.py, and its UNIQUEs
abbrev pub relations : Table → List String
relations t = t.name ∷ str_append "pk_" t.name ∷ map (λ (u : Unique). u.name) t.uniques

abbrev pub has_relation : String → Table → Bool
has_relation name t = exists (str_eq name) (relations t)

-- a relation has the name
unfoldable pub is_taken : String → Catalog → Bool
is_taken name c = exists (has_relation name) c.tables || exists (is_index name) c.indexes

unfoldable pub are_free : List String → Catalog → Bool
unfolding is_taken
are_free [] c = true
are_free (name ∷ names) c = not (is_taken name c) && are_free names c

abbrev pub same_columns : List String → List String → Bool
same_columns [] [] = true
same_columns [] (d ∷ ds) = false
same_columns (c ∷ cs) [] = false
same_columns (c ∷ cs) (d ∷ ds) = str_eq c d && same_columns cs ds

abbrev pub is_key_column : List String → Column → Bool
is_key_column targets c = c.primary_key && same_columns (c.name ∷ []) targets

-- the columns are the primary key, or a UNIQUE of the table
unfoldable pub is_key : List String → Table → Bool
is_key targets t =
    exists (is_key_column targets) t.columns
    || exists (λ (u : Unique). same_columns u.columns targets) t.uniques

abbrev pub is_target : ForeignKey → Table → Bool
is_target f t = is_table f.table t && is_key f.targets t

-- every foreign key refers to a key of a table
unfoldable pub are_resolved : List ForeignKey → List Table → Bool
unfolding is_key
are_resolved [] tables = true
are_resolved (f ∷ fs) tables = exists (is_target f) tables && are_resolved fs tables

abbrev pub has_column : Table → String → Bool
has_column t name = exists (λ (c : Column). str_eq c.name name) t.columns

abbrev pub has_columns : List String → Table → Bool
has_columns [] t = true
has_columns (c ∷ cs) t = has_column t c && has_columns cs t

abbrev are_distinct : List String → Bool
are_distinct [] = true
are_distinct (x ∷ xs) = not (exists (str_eq x) xs) && are_distinct xs

abbrev have_columns : List (List String) → Table → Bool
have_columns [] t = true
have_columns (cs ∷ rest) t = has_columns cs t && have_columns rest t

-- the names of the table differ, and its constraints are on columns that it has
unfoldable pub is_formed : Table → Bool
is_formed t =
    are_distinct (map (λ (c : Column). c.name) t.columns)
    && are_distinct (relations t)
    && have_columns (map (λ (u : Unique). u.columns) t.uniques) t
    && have_columns (map (λ (f : ForeignKey). f.columns) t.foreign_keys) t

abbrev pub is_indexed : Index → Table → Bool
is_indexed x t = is_table x.table t && has_columns x.columns t

-- another table refers to the table
abbrev pub refers_to : String → Table → Bool
refers_to name t =
    not (str_eq t.name name) && exists (λ (f : ForeignKey). str_eq f.table name) t.foreign_keys

abbrev pub is_index_of : String → Index → Bool
is_index_of name x = str_eq x.table name

unfoldable pub execute : Operation → Catalog → Option Catalog
unfolding is_taken are_free are_resolved is_formed
execute (Operation.create_table t) c =
    if are_free (relations t) c && (is_formed t && are_resolved t.foreign_keys (t ∷ c.tables))
    then some (record c { tables = t ∷ c.tables })
    else none
execute (Operation.create_index x) c =
    if not (is_taken x.name c) && exists (is_indexed x) c.tables
    then some (record c { indexes = x ∷ c.indexes })
    else none
execute (Operation.drop_table name) c =
    if exists (is_table name) c.tables && not (exists (refers_to name) c.tables)
    then some (record {
      tables = delete (is_table name) c.tables;
      indexes = delete (is_index_of name) c.indexes;
    })
    else none

-- the operations of a migration, in one transaction
abbrev pub continue : (Catalog → Option Catalog) → Option Catalog → Option Catalog
continue f none = none
continue f (some c) = f c

unfoldable pub run : List Operation → Catalog → Option Catalog
unfolding execute
run [] c = some c
run (op ∷ ops) c = continue (λ d. run ops d) (execute op c)
