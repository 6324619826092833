-- ===== src/Migrations/Columns.antt =====
-- alembic/versions/20260817_0001_initial.py: the columns and constraints that its tables repeat.
use tenantflow_api.Prelude.{String, Bool, true, false, List, [], ◌∷◌}
use tenantflow_api.Migrations.Catalog.{
  ColumnType, uuid, Column, OnDelete, ForeignKey, Unique, Check,
}

abbrev pub column : String → ColumnType → Bool → Column
column name type nullable = record {
  name = name;
  type = type;
  nullable = nullable;
  primary_key = false;
  server_default = false;
}

-- sa.Column("id", UUID, primary_key=True)
abbrev pub identifier : Column
identifier = record (column "id" uuid false) { primary_key = true }

-- nullable=False
abbrev pub required : String → ColumnType → Column
required name type = column name type false

abbrev pub optional : String → ColumnType → Column
optional name type = column name type true

-- nullable=False, server_default=sa.true()
abbrev pub defaulted : String → ColumnType → Column
defaulted name type = record (column name type false) { server_default = true }

-- sa.ForeignKey("table.id", ondelete=...) on one column
abbrev pub references : String → String → OnDelete → ForeignKey
references column table on_delete = record {
  columns = column ∷ [];
  table = table;
  targets = "id" ∷ [];
  on_delete = on_delete;
}

abbrev pub unique : String → List String → Unique
unique name columns = record { name = name; columns = columns }

abbrev pub check : String → String → Check
check name condition = record { name = name; condition = condition }
