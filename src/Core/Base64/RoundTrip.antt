-- ===== src/Core/Base64/RoundTrip.antt =====
-- app/core/pagination.py: the text of a cursor reads back, without its padding.
use tenantflow_api.Prelude.{
  ℕ, zero, suc, ◌+◌, ◌-◌, ◌*◌, ◌/◌, ◌%◌, ◌<◌, ◌≤◌, ◌≡◌, refl, ◌∙◌, sym, ap, false, some, List, [],
  ◌∷◌, ◌++◌, length, All, ◌==◌, arith,
}
use tenantflow_api.Core.Base64.{
  pad, sextet_char, char_sextet, encode, Quad, q0, q1, q2, q3, feed, padding_ends, prepend,
  decode_from, decode, strip_padding, padding, restore_padding,
}

char-sextet :
    (v : ℕ) → v < 64 → (char_sextet (sextet_char v) ≡ some v) × ((sextet_char v == pad) ≡ false)
unfolding char_sextet sextet_char
char-sextet v h = ground arith

plain : (v : ℕ) → v < 64 → (sextet_char v == pad) ≡ false
plain v h = (char-sextet v h).1

count : (l n : ℕ) → n ≤ 2 → (l + n) % 4 ≡ 0 → (4 - l % 4) % 4 ≡ n
count l n h k = omega arith

step :
    (q : Quad) (pads v : ℕ) (cs : List ℕ)
    → v < 64
    → decode_from q pads (sextet_char v ∷ cs)
      ≡ (let (bytes, next) = feed q v in prepend bytes (decode_from next 0 cs))
unfolding decode_from
step q pads v cs h = let k = char-sextet v h in rw k.1 (rw k.0 refl)

abbrev pub Bytes : List ℕ → Type 0
Bytes bs = All (λ b. b < 256) bs

ends :
    (l : ℕ)
    → (decode_from q0 0 [] ≡ some [])
      × (decode_from (q2 l) 0 (pad ∷ pad ∷ []) ≡ some [])
      × (decode_from (q3 l) 0 (pad ∷ []) ≡ some [])
unfolding decode_from padding_ends
ends l = (refl, refl, refl)

-- the bits of three bytes, put together again
bits :
    (a b c : ℕ)
    → a < 256
    → b < 256
    → c < 256
    → (a / 4 * 4 + (a % 4 * 16 + b / 16) / 16 ≡ a)
      × ((a % 4 * 16 + b / 16) % 16 * 16 + (b % 16 * 4 + c / 64) / 4 ≡ b)
      × ((b % 16 * 4 + c / 64) % 4 * 64 + c % 64 ≡ c)
bits a b c h k l = (omega arith, omega arith, omega arith)

-- Decoding what the encoder has written gives the bytes back.
decode_from-encode : (bs : List ℕ) → Bytes bs → decode_from q0 0 (encode bs) ≡ some bs
unfolding encode feed
decode_from-encode [] h = (ends 0).0
decode_from-encode (a ∷ []) h =
    rw (step q0 0 (a / 4) (sextet_char (a % 4 * 16) ∷ pad ∷ pad ∷ []) (let k = h.0 in omega arith))
      (rw (step (q1 (a / 4)) 0 (a % 4 * 16) (pad ∷ pad ∷ []) (omega arith))
        (rw (ends (a % 4 * 16 % 16)).1 (ap (λ x. some (x ∷ [])) (let k = h.0 in omega arith))))
decode_from-encode (a ∷ b ∷ []) h =
    let k = h.0 in
    let l = h.1.0 in
    let x = bits a b 0 k l (omega arith) in
    rw
      (step q0 0 (a / 4) (sextet_char (a % 4 * 16 + b / 16) ∷ sextet_char (b % 16 * 4) ∷ pad ∷ [])
        (omega arith))
      (rw
        (step (q1 (a / 4)) 0 (a % 4 * 16 + b / 16) (sextet_char (b % 16 * 4) ∷ pad ∷ [])
          (omega arith))
        (rw (step (q2 ((a % 4 * 16 + b / 16) % 16)) 0 (b % 16 * 4) (pad ∷ []) (omega arith)) (
          rw (ends (b % 16 * 4 % 4)).2 (
            let e = x.0 in
            let f : (a % 4 * 16 + b / 16) % 16 * 16 + b % 16 * 4 / 4 ≡ b = omega arith in cc))))
decode_from-encode (a ∷ b ∷ c ∷ bs) h =
    let rest = decode_from-encode bs h.1.1.1 in
    let k = h.0 in
    let l = h.1.0 in
    let m = h.1.1.0 in
    let x = bits a b c k l m in
    rw (step q0 0 (a / 4) _ (omega arith)) (
      rw (step (q1 (a / 4)) 0 (a % 4 * 16 + b / 16) _ (omega arith)) (
        rw (step (q2 ((a % 4 * 16 + b / 16) % 16)) 0 (b % 16 * 4 + c / 64) _ (omega arith)) (
          rw (step (q3 ((b % 16 * 4 + c / 64) % 4)) 0 (c % 64) _ (omega arith))
            (rw rest (let e = x.0 in let f = x.1 in let g = x.2 in cc)))))

-- the text without its padding, and how much of it there is
unfoldable core : List ℕ → List ℕ
core [] = []
core (a ∷ []) = sextet_char (a / 4) ∷ sextet_char (a % 4 * 16) ∷ []
core (a ∷ b ∷ []) =
    sextet_char (a / 4) ∷ sextet_char (a % 4 * 16 + b / 16) ∷ sextet_char (b % 16 * 4) ∷ []
core (a ∷ b ∷ c ∷ bs) =
    sextet_char (a / 4)
    ∷ sextet_char (a % 4 * 16 + b / 16)
    ∷ sextet_char (b % 16 * 4 + c / 64)
    ∷ sextet_char (c % 64)
    ∷ core bs

unfoldable missing : List ℕ → ℕ
missing [] = 0
missing (a ∷ []) = 2
missing (a ∷ b ∷ []) = 1
missing (a ∷ b ∷ c ∷ bs) = missing bs

encode-core : (bs : List ℕ) → encode bs ≡ core bs ++ padding (missing bs)
unfolding encode core missing
encode-core [] = refl
encode-core (a ∷ []) = refl
encode-core (a ∷ b ∷ []) = refl
encode-core (a ∷ b ∷ c ∷ bs) = rw (encode-core bs) refl

missing_lem : (bs : List ℕ) → (missing bs ≤ 2) × ((length (core bs) + missing bs) % 4 ≡ 0)
unfolding core missing
missing_lem [] = (omega arith, refl)
missing_lem (a ∷ []) = (omega arith, refl)
missing_lem (a ∷ b ∷ []) = (omega arith, refl)
missing_lem (a ∷ b ∷ c ∷ bs) = let h = missing_lem bs in (h.0, omega (arith, h.1))

abbrev Plain : List ℕ → Type 0
Plain cs = All (λ c. (c == pad) ≡ false) cs

core-Plain : (bs : List ℕ) → Bytes bs → Plain (core bs)
unfolding core
core-Plain [] h = tt
core-Plain (a ∷ []) h =
    let k = h.0 in (plain (a / 4) (omega arith), (plain (a % 4 * 16) (omega arith), tt))
core-Plain (a ∷ b ∷ []) h =
    let k = h.0 in
    let l = h.1.0 in
    (
      plain (a / 4) (omega arith),
      (plain (a % 4 * 16 + b / 16) (omega arith), (plain (b % 16 * 4) (omega arith), tt)),
    )
core-Plain (a ∷ b ∷ c ∷ bs) h =
    let k = h.0 in
    let l = h.1.0 in
    let m = h.1.1.0 in
    (
      plain (a / 4) (omega arith),
      (
        plain (a % 4 * 16 + b / 16) (omega arith),
        (
          plain (b % 16 * 4 + c / 64) (omega arith),
          (plain (c % 64) (omega arith), core-Plain bs h.1.1.1),
        ),
      ),
    )

strip-padding : (n : ℕ) → strip_padding (padding n) ≡ []
unfolding strip_padding
strip-padding zero = refl
strip-padding (suc n) = rw (strip-padding n) refl

strip-append : (cs : List ℕ) (n : ℕ) → Plain cs → strip_padding (cs ++ padding n) ≡ cs
unfolding strip_padding
strip-append [] n h = strip-padding n
strip-append (c ∷ []) n h = rw (strip-padding n) (let k = h.0 in ground arith)
strip-append (c ∷ d ∷ cs) n h = rw (strip-append (d ∷ cs) n h.1) refl

-- Stripping the padding off an encoded text and restoring it by the length gives the text back;
-- what is decoded from it are the bytes that were encoded.
pub restore-strip :
    (bs : List ℕ)
    → Bytes bs
    → (restore_padding (strip_padding (encode bs)) ≡ encode bs)
      × (decode (restore_padding (strip_padding (encode bs))) ≡ some bs)
unfolding decode restore_padding
restore-strip bs h =
    let back : restore_padding (strip_padding (encode bs)) ≡ encode bs =
      ap (λ t. restore_padding (strip_padding t)) (encode-core bs)
      ∙ ap restore_padding (strip-append (core bs) (missing bs) (core-Plain bs h))
      ∙ ap (λ n. core bs ++ padding n)
          (count (length (core bs)) (missing bs) (missing_lem bs).0 (missing_lem bs).1)
      ∙ sym (encode-core bs) in
    (back, ap (decode_from q0 0) back ∙ decode_from-encode bs h)
