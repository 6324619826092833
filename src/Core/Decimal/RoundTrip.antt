-- ===== src/Core/Decimal/RoundTrip.antt =====
-- Python's str(int) and int(str): the text of a number reads back.
use tenantflow_api.Prelude.{
  ℕ, zero, suc, ◌+◌, ◌*◌, ◌/◌, ◌%◌, ◌≤◌, ◌≡◌, refl, ◌∙◌, ap, Bool, true, false, some, List, [], ◌∷◌,
  ◌++◌, ltb, All, All-append, arith, Bool-cases, inl, inr, subst, sym, ◌==◌, ◌-◌,
}
use tenantflow_api.Core.Decimal.{
  is_digit, digits_from, digits, read_digits, strip_left, strip_right, signed, parse_int, pos,
  int_text, positive,
}

append_assoc : (xs ys zs : List ℕ) → (xs ++ ys) ++ zs ≡ xs ++ (ys ++ zs)
append_assoc [] ys zs = refl
append_assoc (x ∷ xs) ys zs = ap (λ t. x ∷ t) (append_assoc xs ys zs)

abbrev pub Digits : List ℕ → Type 0
Digits cs = All (λ c. is_digit c ≡ true) cs

digits_small : (fuel n : ℕ) → ltb n 10 ≡ true → digits_from (suc fuel) n ≡ (b'0' + n) ∷ []
unfolding digits_from
digits_small fuel n h = ground arith

digits_large :
    (fuel n : ℕ)
    → ltb n 10 ≡ false
    → digits_from (suc fuel) n ≡ digits_from fuel (n / 10) ++ (b'0' + n % 10) ∷ []
unfolding digits_from
digits_large fuel n h = ground arith

digits_from-Digits : (fuel n : ℕ) → Digits (digits_from fuel n)
unfolding digits_from
digits_from-Digits zero n = (ground arith, tt)
digits_from-Digits (suc fuel) n = elim (Bool-cases (ltb n 10)) [
  | inl e ↦ subst Digits (sym (digits_small fuel n e)) (ground arith, tt)
  | inr e ↦ subst Digits (sym (digits_large fuel n e)) (
      All-append _ (digits_from fuel (n / 10)) _ (digits_from-Digits fuel (n / 10))
        (ground arith, tt))
]

read_one :
    (c acc : ℕ) (behind : Bool) (cs : List ℕ)
    → is_digit c ≡ true
    → read_digits acc behind (c ∷ cs) ≡ read_digits (acc * 10 + (c - b'0')) true cs
unfolding read_digits
read_one c acc behind cs h = ground arith

read_digit :
    (d acc : ℕ) (behind : Bool) (cs : List ℕ)
    → d ≤ 9
    → read_digits acc behind ((b'0' + d) ∷ cs) ≡ read_digits (acc * 10 + d) true cs
read_digit d acc behind cs h =
    read_one (b'0' + d) acc behind cs (ground arith) ∙ ap (λ a. read_digits a true cs) (omega arith)

read_digits_from :
    (fuel n : ℕ) (behind : Bool) (cs : List ℕ)
    → n ≤ fuel + 9
    → read_digits 0 behind (digits_from fuel n ++ cs) ≡ read_digits n true cs
unfolding digits_from
read_digits_from zero n behind cs h =
    read_digit (n % 10) 0 behind cs (omega arith) ∙ ap (λ a. read_digits a true cs) (omega arith)
read_digits_from (suc fuel) n behind cs h = elim (Bool-cases (ltb n 10)) [
  | inl e ↦
      ap (λ t. read_digits 0 behind (t ++ cs)) (digits_small fuel n e)
      ∙ read_digit n 0 behind cs (ground arith)
      ∙ ap (λ a. read_digits a true cs) (omega arith)
  | inr e ↦
      ap (λ t. read_digits 0 behind (t ++ cs)) (digits_large fuel n e)
      ∙ ap (read_digits 0 behind)
          (append_assoc (digits_from fuel (n / 10)) ((b'0' + n % 10) ∷ []) cs)
      ∙ read_digits_from fuel (n / 10) behind _ (omega arith)
      ∙ read_digit (n % 10) (n / 10) true cs (omega arith)
      ∙ ap (λ a. read_digits a true cs) (omega arith)
]

strip_left-Digits : (cs : List ℕ) → Digits cs → strip_left cs ≡ cs
unfolding strip_left
strip_left-Digits [] h = refl
strip_left-Digits (c ∷ cs) h = let k = h.0 in ground arith

strip_right-Digits : (cs : List ℕ) → Digits cs → strip_right cs ≡ cs
unfolding strip_right
strip_right-Digits [] h = refl
strip_right-Digits (c ∷ []) h = let k = h.0 in ground arith
strip_right-Digits (c ∷ d ∷ ds) h = rw (strip_right-Digits (d ∷ ds) h.1) refl

signed-Digits :
    (cs : List ℕ) (n : ℕ) → Digits cs → read_digits 0 false cs ≡ some n → signed cs ≡ some (pos n)
unfolding signed read_digits
signed-Digits [] n h e = ground arith
signed-Digits (c ∷ cs) n h e =
    let k = h.0 in
    let minus : (c == b'-') ≡ false = ground arith in
    let plus : (c == b'+') ≡ false = ground arith in rw minus (rw plus (ap positive e))

append_nil : (xs : List ℕ) → xs ++ [] ≡ xs
append_nil [] = refl
append_nil (x ∷ xs) = ap (λ t. x ∷ t) (append_nil xs)

pub digits-Digits : (n : ℕ) → Digits (digits n)
unfolding digits
digits-Digits n = digits_from-Digits n n

-- reading back the text of a natural number gives the number
pub parse_int-int_text : (n : ℕ) → parse_int (int_text (pos n)) ≡ some (pos n)
unfolding parse_int int_text digits read_digits
parse_int-int_text n =
    let all = digits-Digits n in
    ap (λ t. signed (strip_right t)) (strip_left-Digits (digits n) all)
    ∙ ap signed (strip_right-Digits (digits n) all)
    ∙ signed-Digits (digits n) n all (
        ap (read_digits 0 false) (sym (append_nil (digits n)))
        ∙ read_digits_from n n false [] (omega arith))
