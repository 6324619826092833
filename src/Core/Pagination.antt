-- ===== src/Core/Pagination.antt =====
-- app/core/pagination.py, and the query that the list endpoints of projects and tasks share.
-- json.dumps, isoformat, UUID and their inverses are the record `CursorJson`.
use tenantflow_api.Prelude.{
  ℕ, ◌+◌, Bool, true, ◌&&◌, ◌||◌, Option, none, some, List, [], ◌∷◌, length, take, ltb, leb, ◌==◌,
  select, order_by, if◌then◌else◌,
}
use tenantflow_api.Core.Errors.{Error, Result, ok, err}
use tenantflow_api.Core.Base64

pub record Cursor : Type 0 where
  pub created_at : ℕ
  pub entity_id : ℕ

-- what the JSON of a cursor says: its time, whether that has a time zone, and its id
pub record Position : Type 0 where
  pub created_at : ℕ
  pub is_aware : Bool
  pub entity_id : ℕ

pub record CursorJson : Type 0 where
  pub dumps : ℕ → ℕ → List ℕ
  pub loads : List ℕ → Option Position

abbrev pub invalid_cursor : Error
invalid_cursor = Error.value_error "Invalid pagination cursor"

abbrev pub check_aware : Option Position → Result Cursor
check_aware none = err invalid_cursor
check_aware (some c) =
    if c.is_aware
    then ok (record { created_at = c.created_at; entity_id = c.entity_id })
    else err (Error.value_error "Pagination cursor timestamp must be timezone-aware")

abbrev pub load_bytes : CursorJson → Option (List ℕ) → Option Position
load_bytes j none = none
load_bytes j (some bytes) = j.loads bytes

unfoldable pub encode_cursor : CursorJson → ℕ → ℕ → List ℕ
unfolding Base64.encode Base64.strip_padding
encode_cursor j created_at entity_id =
    Base64.strip_padding (Base64.encode (j.dumps created_at entity_id))

unfoldable pub decode_cursor : CursorJson → List ℕ → Result Cursor
unfolding Base64.decode Base64.restore_padding
decode_cursor j value = check_aware (load_bytes j (Base64.decode (Base64.restore_padding value)))

pub record Page (A : Type 0) : Type 0 where
  pub items : List A
  pub next_position : Option Cursor

module _ {A : Type 0} (at id : A → ℕ) where
  -- ORDER BY created_at DESC, id DESC
  abbrev pub newest : A → A → Bool
  newest a b = ltb (at b) (at a) || (at a == at b && leb (id b) (id a))

  -- the WHERE clause of a cursor
  abbrev pub after : Option Cursor → A → Bool
  after none x = true
  after (some c) x = ltb (at x) c.created_at || (at x == c.created_at && ltb (id x) c.entity_id)

  -- rows[-1]
  unfoldable pub last : List A → Option Cursor
  last [] = none
  last (x ∷ []) = some (record { created_at = at x; entity_id = id x })
  last (x ∷ y ∷ xs) = last (y ∷ xs)

  -- LIMIT limit + 1, and the page with the position of its last row if there are more
  unfoldable pub page_of : ℕ → Option Cursor → List A → Page A
  unfolding last
  page_of limit cursor rows =
      let fetched = take (limit + 1) (order_by newest (select (after cursor) rows)) in
      let page_rows = take limit fetched in
      record {
        items = page_rows;
        next_position = if ltb limit (length fetched) then last page_rows else none;
      }
