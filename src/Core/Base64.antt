-- ===== src/Core/Base64.antt =====
-- base64.urlsafe_b64encode and urlsafe_b64decode, as app/core/pagination.py uses them, over the
-- codes of the characters. The decoder is binascii.a2b_base64 in its lenient mode: a character
-- outside the alphabet is passed over, and enough padding ends the text.
pub mod RoundTrip
use tenantflow_api.Prelude.{
  ℕ, zero, suc, ◌+◌, ◌-◌, ◌*◌, ◌/◌, ◌%◌, Bool, ◌&&◌, ◌||◌, Option, none, some, List, [], ◌∷◌, ◌++◌,
  length, leb, ltb, ◌==◌, if◌then◌else◌,
}

abbrev pub pad : ℕ
pad = b'='

-- the character of a sextet
unfoldable pub sextet_char : ℕ → ℕ
sextet_char n =
    if ltb n 26
    then n + b'A'
    else if ltb n 52
    then n - 26 + b'a'
    else if ltb n 62
    then n - 52 + b'0'
    else if n == 62
    then b'-'
    else b'_'

-- the sextet of a character: both alphabets are read
unfoldable pub char_sextet : ℕ → Option ℕ
char_sextet c =
    if leb b'A' c && leb c b'Z'
    then some (c - b'A')
    else if leb b'a' c && leb c b'z'
    then some (c - b'a' + 26)
    else if leb b'0' c && leb c b'9'
    then some (c - b'0' + 52)
    else if c == b'-' || c == b'+'
    then some 62
    else if c == b'_' || c == b'/'
    then some 63
    else none

unfoldable pub encode : List ℕ → List ℕ
unfolding sextet_char
encode [] = []
encode (a ∷ []) = sextet_char (a / 4) ∷ sextet_char (a % 4 * 16) ∷ pad ∷ pad ∷ []
encode (a ∷ b ∷ []) =
    sextet_char (a / 4) ∷ sextet_char (a % 4 * 16 + b / 16) ∷ sextet_char (b % 16 * 4) ∷ pad ∷ []
encode (a ∷ b ∷ c ∷ bytes) =
    sextet_char (a / 4)
    ∷ sextet_char (a % 4 * 16 + b / 16)
    ∷ sextet_char (b % 16 * 4 + c / 64)
    ∷ sextet_char (c % 64)
    ∷ encode bytes

-- what the decoder holds of the group that it reads
pub data Quad : Type 0 where
  q0 : Quad
  q1 q2 q3 : ℕ → Quad

-- one character: the byte that it completes, and the next state
unfoldable pub feed : Quad → ℕ → List ℕ × Quad
feed q0 v = ([], q1 v)
feed (q1 l) v = ((l * 4 + v / 16) ∷ [], q2 (v % 16))
feed (q2 l) v = ((l * 16 + v / 4) ∷ [], q3 (v % 4))
feed (q3 l) v = ((l * 64 + v) ∷ [], q0)

-- `quad_pos >= 2 && quad_pos + pads >= 4`, with the padding that was counted
unfoldable pub padding_ends : Quad → ℕ → Bool
padding_ends (q2 l) pads = leb 2 pads
padding_ends (q3 l) pads = leb 1 pads
padding_ends _ pads = ltb 1 0

-- at the end of the text a group must be complete
abbrev pub at_end : Quad → Option (List ℕ)
at_end q0 = some []
at_end _ = none

abbrev pub prepend : List ℕ → Option (List ℕ) → Option (List ℕ)
prepend bytes none = none
prepend bytes (some rest) = some (bytes ++ rest)

unfoldable pub decode_from : Quad → ℕ → List ℕ → Option (List ℕ)
unfolding feed padding_ends char_sextet
decode_from q pads [] = at_end q
decode_from q pads (c ∷ cs) =
    let padded = decode_from q (pads + 1) cs in
    let skipped = decode_from q pads cs in
    if c == pad
    then (if padding_ends q (pads + 1) then some [] else padded)
    else elim (char_sextet c) [
      | none ↦ skipped
      | some v ↦ let (bytes, next) = feed q v in prepend bytes (decode_from next 0 cs)
    ]

unfoldable pub decode : List ℕ → Option (List ℕ)
unfolding decode_from
decode text = decode_from q0 0 text

-- a character in front of what is left of the text behind it
abbrev pub strip_before : ℕ → List ℕ → List ℕ
strip_before c [] = if c == pad then [] else c ∷ []
strip_before c (d ∷ ds) = c ∷ d ∷ ds

-- str.rstrip("=")
unfoldable pub strip_padding : List ℕ → List ℕ
strip_padding [] = []
strip_padding (c ∷ cs) = strip_before c (strip_padding cs)

-- "=" * n
abbrev pub padding : ℕ → List ℕ
padding zero = []
padding (suc n) = pad ∷ padding n

-- value + "=" * (-len(value) % 4)
unfoldable pub restore_padding : List ℕ → List ℕ
restore_padding text = text ++ padding ((4 - length text % 4) % 4)
