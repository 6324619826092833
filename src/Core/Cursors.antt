-- ===== src/Core/Cursors.antt =====
-- app/core/pagination.py: a cursor that was handed out is read back.
use tenantflow_api.Prelude.{ℕ, ◌≡◌, refl, true, some}
use tenantflow_api.Core.Errors.{ok}
use tenantflow_api.Core.Base64.RoundTrip.{Bytes, restore-strip}
use tenantflow_api.Core.Pagination.{CursorJson, encode_cursor, decode_cursor}

-- A cursor that the program has written decodes to the time and the id that it was written for,
-- if json.dumps writes bytes that json.loads reads back, with a time zone.
pub decode_cursor-encode_cursor :
    (j : CursorJson) (created_at entity_id : ℕ)
    → Bytes (j.dumps created_at entity_id)
    → j.loads (j.dumps created_at entity_id)
      ≡ some (record { created_at = created_at; is_aware = true; entity_id = entity_id })
    → decode_cursor j (encode_cursor j created_at entity_id)
      ≡ ok (record { created_at = created_at; entity_id = entity_id })
unfolding decode_cursor encode_cursor
decode_cursor-encode_cursor j created_at entity_id bytes back =
    rw (restore-strip (j.dumps created_at entity_id) bytes).1 (rw back refl)
