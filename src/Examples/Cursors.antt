-- ===== src/Examples/Cursors.antt =====
-- Cursors and their text at work.
use tenantflow_api.Prelude.{ℕ, ◌≡◌, refl, true, none, some, List, order_by, [], ◌∷◌, arith}
use tenantflow_api.Core.Errors.{ok}
use tenantflow_api.Core.Base64.{encode}
use tenantflow_api.Core.Pagination.{CursorJson, newest, encode_cursor, decode_cursor}
use tenantflow_api.Core.Walk.{walk, walk_lem}
use tenantflow_api.Core.Cursors.{decode_cursor-encode_cursor}

-- the bytes of "Man" and of "Ma"
encoded :
    (encode (77 ∷ 97 ∷ 110 ∷ []) ≡ 84 ∷ 87 ∷ 70 ∷ 117 ∷ [])
    × (encode (77 ∷ 97 ∷ []) ≡ 84 ∷ 87 ∷ 69 ∷ 61 ∷ [])
unfolding encode
encoded = (refl, refl)

-- one byte for the time and one for the id
abbrev json : CursorJson
json = record {
  dumps = λ t k. t ∷ k ∷ [];
  loads = λ bytes. some (record { created_at = 5; is_aware = true; entity_id = 9 });
}

decode_cursor-encode_cursor_example :
    decode_cursor json (encode_cursor json 5 9) ≡ ok (record { created_at = 5; entity_id = 9 })
decode_cursor-encode_cursor_example = decode_cursor-encode_cursor json 5 9 (ground arith) refl

-- rows by their time and id
abbrev rows : List (ℕ × ℕ)
rows = (5, 1) ∷ (7, 2) ∷ (5, 3) ∷ (9, 4) ∷ (1, 5) ∷ []

abbrev listed : List (ℕ × ℕ)
listed = (9, 4) ∷ (7, 2) ∷ (5, 3) ∷ (5, 1) ∷ (1, 5) ∷ []

in_order : order_by (newest (λ (r : ℕ × ℕ). r.0) (λ r. r.1)) rows ≡ listed
unfolding order_by tenantflow_api.Prelude.place
in_order = refl

walk_lem_example : walk (λ r. r.0) (λ r. r.1) 5 2 none rows ≡ listed
unfolding order_by tenantflow_api.Prelude.place
walk_lem_example = walk_lem (λ r. r.0) (λ r. r.1) 1 rows (ground arith)
