-- ===== src/Core/Decimal.antt =====
-- Python's str(int) and int(str), over the codes of the characters. `int` takes space around the
-- number, a sign, and single underscores between digits; digits and spaces outside ASCII are left
-- out.
pub mod RoundTrip
use tenantflow_api.Prelude.{
  ℕ, zero, suc, ◌+◌, ◌-◌, ◌*◌, ◌/◌, ◌%◌, Bool, true, false, ◌&&◌, ◌||◌, Option, none, some, List,
  [], ◌∷◌, ◌++◌, leb, ltb, ◌==◌, if◌then◌else◌,
}

pub data ℤ : Type 0 where
  pos negsuc : ℕ → ℤ

abbrev pub is_digit : ℕ → Bool
is_digit c = leb b'0' c && leb c b'9'

abbrev pub is_space : ℕ → Bool
is_space c = (leb 9 c && leb c 13) || (leb 28 c && leb c 32)

-- the digits of a number, with fuel for the divisions by ten
unfoldable pub digits_from : ℕ → ℕ → List ℕ
digits_from zero n = (b'0' + n % 10) ∷ []
digits_from (suc fuel) n = elim (ltb n 10) [
  | true ↦ (b'0' + n) ∷ []
  | false ↦ digits_from fuel (n / 10) ++ (b'0' + n % 10) ∷ []
]

unfoldable pub digits : ℕ → List ℕ
unfolding digits_from
digits n = digits_from n n

-- str(n)
unfoldable pub int_text : ℤ → List ℕ
unfolding digits
int_text (pos n) = digits n
int_text (negsuc n) = b'-' ∷ digits (suc n)

pub data CharKind : Type 0 where
  digit underscore other : CharKind

abbrev pub kind_of : ℕ → CharKind
kind_of c = if is_digit c then digit else if c == b'_' then underscore else other

-- the digits of a text behind the number `acc`; `behind` tells that a digit stands in front
unfoldable pub read_digits : ℕ → Bool → List ℕ → Option ℕ
read_digits acc behind [] = if behind then some acc else none
read_digits acc behind (c ∷ cs) = elim (kind_of c) [
  | digit ↦ read_digits (acc * 10 + (c - b'0')) true cs
  | underscore ↦ elim behind [ true ↦ read_digits acc false cs | false ↦ none ]
  | other ↦ none
]

unfoldable pub strip_left : List ℕ → List ℕ
strip_left [] = []
strip_left (c ∷ cs) = let rest = strip_left cs in if is_space c then rest else c ∷ cs

abbrev pub strip_behind : ℕ → List ℕ → List ℕ
strip_behind c [] = if is_space c then [] else c ∷ []
strip_behind c (d ∷ ds) = c ∷ d ∷ ds

unfoldable pub strip_right : List ℕ → List ℕ
strip_right [] = []
strip_right (c ∷ cs) = strip_behind c (strip_right cs)

abbrev pub positive : Option ℕ → Option ℤ
positive none = none
positive (some n) = some (pos n)

abbrev pub negative : Option ℕ → Option ℤ
negative none = none
negative (some zero) = some (pos 0)
negative (some (suc n)) = some (negsuc n)

unfoldable pub signed : List ℕ → Option ℤ
unfolding read_digits
signed [] = none
signed (c ∷ cs) =
    if c == b'-'
    then negative (read_digits 0 false cs)
    else if c == b'+'
    then positive (read_digits 0 false cs)
    else positive (read_digits 0 false (c ∷ cs))

-- int(text), or `none` for a ValueError
unfoldable pub parse_int : List ℕ → Option ℤ
unfolding signed strip_left strip_right
parse_int text = signed (strip_right (strip_left text))

-- abs(a - b) of the natural number `a`
abbrev pub distance : ℕ → ℤ → ℕ
distance a (pos b) = (a - b) + (b - a)
distance a (negsuc b) = a + suc b
