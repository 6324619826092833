-- ===== src/Webhooks/Signing.antt =====
-- app/modules/webhooks/signing.py, over the codes of the characters. HMAC-SHA256 in hexadecimal
-- is a parameter, of the secret and the signed bytes; json.dumps stands before `payload`. The
-- errors that Python raises beside ValueError are runtime errors here.
pub mod RoundTrip
use tenantflow_api.Core.Texts.{Text, split_on}
use tenantflow_api.Prelude.{
  ℕ, zero, suc, Bool, true, false, ◌&&◌, Option, none, some, List, [], ◌∷◌, ◌++◌, ltb, ◌==◌,
  if◌then◌else◌,
}
use tenantflow_api.Core.Errors.{Error, Result, ok, err}
use tenantflow_api.Core.Decimal.{ℤ, pos, int_text, parse_int, distance}

abbrev pub text_eq : Text → Text → Bool
text_eq [] [] = true
text_eq [] (d ∷ ds) = false
text_eq (c ∷ cs) [] = false
text_eq (c ∷ cs) (d ∷ ds) = c == d && text_eq cs ds

abbrev pub is_ascii : Text → Bool
is_ascii [] = true
is_ascii (c ∷ cs) = ltb c 128 && is_ascii cs

-- str.split with a limit of one
abbrev pub longer : ℕ → Option (Text × Text) → Option (Text × Text)
longer c none = none
longer c (some (a, b)) = some (c ∷ a, b)

unfoldable pub split_once : ℕ → Text → Option (Text × Text)
split_once sep [] = none
split_once sep (c ∷ cs) =
    let rest = split_once sep cs in if c == sep then some ([], cs) else longer c rest

-- dict(item.split("=", 1) for item in items): an item without "=" raises ValueError
abbrev pub add_part :
    Option (Text × Text) → Option (List (Text × Text)) → Option (List (Text × Text))
add_part (some part) (some rest) = some (part ∷ rest)
add_part _ _ = none

unfoldable pub parts_of : List Text → Option (List (Text × Text))
unfolding split_once
parts_of [] = some []
parts_of (item ∷ items) = add_part (split_once b'=' item) (parts_of items)

-- the last part of a key is the one that the dict holds
unfoldable pub get_part : Text → List (Text × Text) → Option Text
get_part key [] = none
get_part key ((j, v) ∷ rest) = elim (get_part key rest) [
  | some u ↦ some u
  | none ↦ if text_eq j key then some v else none
]

abbrev pub t_key : Text
t_key = b't' ∷ []

abbrev pub v1_key : Text
v1_key = b'v' ∷ b'1' ∷ []

abbrev pub both : Option ℤ → Option Text → Option (ℤ × Text)
both (some ts) (some s) = some (ts, s)
both _ _ = none

abbrev pub int_of : Option Text → Option ℤ
int_of none = none
int_of (some text) = parse_int text

abbrev pub stamp_and_digest : Option (List (Text × Text)) → Option (ℤ × Text)
stamp_and_digest none = none
stamp_and_digest (some parts) = both (int_of (get_part t_key parts)) (get_part v1_key parts)

-- the `try` of `verify_signature`
unfoldable pub parse_header : Text → Option (ℤ × Text)
unfolding split_on parts_of get_part parse_int
parse_header header = stamp_and_digest (parts_of (split_on b',' header))

-- timestamp or int(time.time())
abbrev pub stamp_of : Option ℤ → ℕ → ℤ
stamp_of none time = pos time
stamp_of (some (pos zero)) time = pos time
stamp_of (some ts) time = ts

-- the text behind a prefix
abbrev pub drop_prefix : Text → Text → Option Text
drop_prefix [] text = some text
drop_prefix (p ∷ ps) [] = none
drop_prefix (p ∷ ps) (c ∷ cs) = let rest = drop_prefix ps cs in if p == c then rest else none

abbrev pub first_found : Option Text → Option Text → Option Text
first_found (some text) later = some text
first_found none later = later

-- text.split(mark, 1)[1]
unfoldable pub after_first : Text → Text → Option Text
after_first mark [] = drop_prefix mark []
after_first mark (c ∷ cs) =
    let rest = after_first mark cs in first_found (drop_prefix mark (c ∷ cs)) rest

abbrev pub signature_text : Text → Text → Text
signature_text ts digest = b't' ∷ b'=' ∷ (ts ++ b',' ∷ b'v' ∷ b'1' ∷ b'=' ∷ digest)

-- hmac.compare_digest raises TypeError on texts that are not ASCII
abbrev pub compare_digest : Text → Text → Result Bool
compare_digest a b =
    if is_ascii a && is_ascii b
    then ok (text_eq a b)
    else err (Error.runtime_error "comparing strings with non-ASCII characters is not supported")

module _ (hmac_hex : Text → Text → Text) where
  -- the digest of "{ts}." and the payload
  abbrev pub digest_of : Text → Text → ℤ → Text
  digest_of secret payload ts = hmac_hex secret (int_text ts ++ b'.' ∷ payload)

  unfoldable pub create_signature : Text → Text → Option ℤ → ℕ → Text
  unfolding int_text
  create_signature secret payload timestamp time =
      signature_text (int_text (stamp_of timestamp time))
        (digest_of secret payload (stamp_of timestamp time))

  abbrev pub check_digest : Option Text → Text → Result Bool
  check_digest none supplied = err (Error.runtime_error "list index out of range")
  check_digest (some expected) supplied = compare_digest expected supplied

  abbrev pub check_parts : Text → Text → ℕ → ℕ → Option (ℤ × Text) → Result Bool
  check_parts secret payload tolerance time none = ok false
  check_parts secret payload tolerance time (some (ts, supplied)) =
      if ltb tolerance (distance time ts)
      then ok false
      else check_digest
          (after_first (b'v' ∷ b'1' ∷ b'=' ∷ []) (create_signature secret payload (some ts) time))
          supplied

  -- `time` is int(time.time()), read once here
  unfoldable pub verify_signature : Text → Text → Text → ℕ → ℕ → Result Bool
  unfolding parse_header create_signature after_first
  verify_signature secret payload header tolerance time =
      check_parts secret payload tolerance time (parse_header header)
