-- ===== src/Db/Json.antt =====
-- The JSON values that the program stores in JSONB columns. A UUID stands in them as its own
-- case: its text form is not modelled.
use tenantflow_api.Prelude.{ℕ, String, Option, none, some, str_eq, if◌then◌else◌}

mutual
  pub data Json : Type 0 where
    null : Json
    str : String → Json
    uuid : ℕ → Json
    num : ℕ → Json
    obj : Fields → Json

  pub data Fields : Type 0 where
    end : Fields
    field : String → Json → Fields → Fields

-- `d[k]`, or `none` on a missing key
unfoldable pub get_field : String → Fields → Option Json
get_field k end = none
get_field k (field j v rest) = if str_eq j k then some v else get_field k rest

abbrev pub as_str : Option Json → Option String
as_str (some (str s)) = some s
as_str _ = none

abbrev pub as_uuid : Option Json → Option ℕ
as_uuid (some (uuid u)) = some u
as_uuid _ = none
