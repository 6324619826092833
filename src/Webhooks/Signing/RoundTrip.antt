-- ===== src/Webhooks/Signing/RoundTrip.antt =====
-- app/modules/webhooks/signing.py: a signature that was created verifies.
use tenantflow_api.Core.Texts.{Text, split_on, Lacks, split_on-Lacks, split_on-append}
use tenantflow_api.Prelude.{
  ℕ, zero, suc, ◌≡◌, ◌≢◌, refl, ◌∙◌, ap, sym, Bool, true, false, none, some, [], ◌∷◌, ◌++◌, ltb,
  leb, not, ◌==◌, All, arith, Bool-cases, inl, inr, if◌then◌else◌, ◌&&◌, ==-refl, ==→eq, Option,
  ◌≤◌, Option-cases, ◌||◌, and_both,
}
use tenantflow_api.Core.Errors.{Error, ok, err, err_ok}
use tenantflow_api.Core.Decimal.{ℤ, pos, negsuc, int_text, digits, distance, is_digit}
use tenantflow_api.Core.Decimal.RoundTrip.{Digits, digits-Digits, parse_int-int_text}
use tenantflow_api.Webhooks.Signing.{
  text_eq, is_ascii, split_once, parts_of, get_part, parse_header, signature_text, after_first,
  drop_prefix, compare_digest, digest_of, create_signature, check_parts, verify_signature,
  stamp_and_digest, both, stamp_of, check_digest,
}

Digits-Lacks : (sep : ℕ) → is_digit sep ≡ false → (cs : Text) → Digits cs → Lacks sep cs
Digits-Lacks sep h [] k = tt
Digits-Lacks sep h (c ∷ cs) k = (let d = k.0 in ground arith, Digits-Lacks sep h cs k.1)

text_eq_refl : (t : Text) → text_eq t t ≡ true
text_eq_refl [] = refl
text_eq_refl (c ∷ cs) = rw (==-refl c) (text_eq_refl cs)

text_eq→eq : (s t : Text) → text_eq s t ≡ true → s ≡ t
text_eq→eq [] [] h = refl
text_eq→eq [] (d ∷ ds) h = ground arith
text_eq→eq (c ∷ cs) [] h = ground arith
text_eq→eq (c ∷ cs) (d ∷ ds) h =
    let k = and_both (c == d) (text_eq cs ds) h in
    ap (λ x. x ∷ cs) (==→eq c d k.0) ∙ ap (λ t. d ∷ t) (text_eq→eq cs ds k.1)

-- the header of a stamp and a text parses
parse_header-signature_text :
    (stamp : ℕ) (supplied : Text)
    → Lacks b',' supplied
    → parse_header (signature_text (int_text (pos stamp)) supplied) ≡ some (pos stamp, supplied)
unfolding parse_header split_on parts_of split_once get_part int_text
parse_header-signature_text stamp supplied h =
    let ts = digits stamp in
    let comma : Lacks b',' (b't' ∷ b'=' ∷ ts) =
      (refl, (refl, Digits-Lacks b',' refl ts (digits-Digits stamp))) in
    ap (λ items. stamp_and_digest (parts_of items))
      (split_on-append b',' (b't' ∷ b'=' ∷ ts) (b'v' ∷ b'1' ∷ b'=' ∷ supplied) comma
        ∙ ap (λ rest. (b't' ∷ b'=' ∷ ts) ∷ rest)
            (split_on-Lacks b',' (b'v' ∷ b'1' ∷ b'=' ∷ supplied) (refl, (refl, (refl, h)))))
    ∙ ap (λ n. both n (some supplied)) (parse_int-int_text stamp)

after_first-miss :
    (mark : Text) (c : ℕ) (cs : Text)
    → drop_prefix mark (c ∷ cs) ≡ none
    → after_first mark (c ∷ cs) ≡ after_first mark cs
unfolding after_first
after_first-miss mark c cs h = rw h refl

-- what stands behind the first "v1=" of a signature is its digest
after_first-Lacks :
    (ts digest : Text)
    → Lacks b'v' ts
    → after_first (b'v' ∷ b'1' ∷ b'=' ∷ []) (ts ++ b',' ∷ b'v' ∷ b'1' ∷ b'=' ∷ digest) ≡ some digest
unfolding after_first
after_first-Lacks [] digest h = refl
after_first-Lacks (c ∷ cs) digest h =
    let k : (b'v' == c) ≡ false = let q = h.0 in ground arith in
    after_first-miss (b'v' ∷ b'1' ∷ b'=' ∷ []) c (cs ++ b',' ∷ b'v' ∷ b'1' ∷ b'=' ∷ digest)
      (rw k refl)
    ∙ after_first-Lacks cs digest h.1

int_text-Lacks :
    (sep : ℕ) → is_digit sep ≡ false → (b'-' == sep) ≡ false → (n : ℤ) → Lacks sep (int_text n)
unfolding int_text
int_text-Lacks sep h m (pos n) = Digits-Lacks sep h _ (digits-Digits n)
int_text-Lacks sep h m (negsuc n) = (m, Digits-Lacks sep h _ (digits-Digits (suc n)))

abbrev pub is_hex : ℕ → Bool
is_hex c = is_digit c || (leb b'a' c && leb c b'f')

hex-Lacks : (cs : Text) → All (λ c. is_hex c ≡ true) cs → Lacks b',' cs
hex-Lacks [] h = tt
hex-Lacks (c ∷ cs) h = (let k = h.0 in ground arith, hex-Lacks cs h.1)

hex-ascii : (cs : Text) → All (λ c. is_hex c ≡ true) cs → is_ascii cs ≡ true
hex-ascii [] h = refl
hex-ascii (c ∷ cs) h =
    let k : ltb c 128 ≡ true = (let q = h.0 in ground arith) in rw k (hex-ascii cs h.1)

ok_apart : ok false ≡ ok true → ⊥
ok_apart h = cc

sound_parts :
    (far : Bool) (expected supplied : Text)
    → (if far then ok false else compare_digest expected supplied) ≡ ok true
    → (far ≡ false) × (supplied ≡ expected)
sound_parts true expected supplied h = absurd (ok_apart h)
sound_parts false expected supplied h = elim (Bool-cases (is_ascii expected && is_ascii supplied)) [
  | inl b ↦ (refl, sym (text_eq→eq expected supplied (let k = rw b at h in ground arith)))
  | inr b ↦ absurd (let k = rw b at h in err_ok k)
]

module _ (hmac_hex : Text → Text → Text) where
  -- hexdigest() writes hexadecimal digits
  abbrev pub IsHex : Type 0
  IsHex = (key message : Text) → All (λ c. is_hex c ≡ true) (hmac_hex key message)

  expected_lem :
      (secret payload : Text) (ts : ℤ) (time : ℕ)
      → after_first
          (b'v' ∷ b'1' ∷ b'=' ∷ [])
          (create_signature hmac_hex secret payload (some ts) time)
        ≡ some (digest_of hmac_hex secret payload (stamp_of (some ts) time))
  unfolding create_signature
  expected_lem secret payload ts time =
      after_first-Lacks (b't' ∷ b'=' ∷ int_text (stamp_of (some ts) time)) _
        (refl, (refl, int_text-Lacks b'v' refl refl (stamp_of (some ts) time)))

  -- what `verify_signature` answers to a header with a stamp and a digest
  verify_lem :
      (secret payload header : Text) (tolerance time : ℕ) (ts : ℤ) (supplied : Text)
      → parse_header header ≡ some (ts, supplied)
      → verify_signature hmac_hex secret payload header tolerance time ≡ (
          if ltb tolerance (distance time ts)
          then ok false
          else compare_digest
              (digest_of hmac_hex secret payload (stamp_of (some ts) time))
              supplied)
  unfolding verify_signature
  verify_lem secret payload header tolerance time ts supplied e =
      ap (check_parts hmac_hex secret payload tolerance time) e
      ∙ ap
          (λ x.
            if ltb tolerance (distance time ts) then ok false else check_digest hmac_hex x supplied)
          (expected_lem secret payload ts time)

  same_stamp : (stamp time : ℕ) → stamp ≢ 0 → stamp_of (some (pos stamp)) time ≡ pos stamp
  same_stamp zero time h = absurd (h refl)
  same_stamp (suc n) time h = refl

  compare_lem :
      IsHex
      → (key message : Text)
      → compare_digest (hmac_hex key message) (hmac_hex key message) ≡ ok true
  compare_lem hex key message =
      rw (hex-ascii (hmac_hex key message) (hex key message))
        (ap ok (text_eq_refl (hmac_hex key message)))

  -- A signature that was created with a time, or with none at a time that is not zero, verifies under
  -- the same secret and payload exactly when its time is within the tolerance, on either side, of the
  -- time of the verification, if the digest is written in hexadecimal.
  pub verify_signature-create_signature :
      (secret payload : Text) (timestamp : Option ℤ) (made stamp tolerance time : ℕ)
      → IsHex
      → stamp_of timestamp made ≡ pos stamp
      → stamp ≢ 0
      → verify_signature hmac_hex secret payload
          (create_signature hmac_hex secret payload timestamp made)
          tolerance
          time
        ≡ ok (not (ltb tolerance (distance time (pos stamp))))
  unfolding create_signature
  verify_signature-create_signature secret payload timestamp made stamp tolerance time hex at
        positive =
      let digest = digest_of hmac_hex secret payload (pos stamp) in
      let header = parse_header-signature_text stamp digest (hex-Lacks digest (hex secret _)) in
      ap
        (λ ts.
          verify_signature hmac_hex secret payload
            (signature_text (int_text ts) (digest_of hmac_hex secret payload ts)) tolerance time)
        at
      ∙ verify_lem secret payload _ tolerance time (pos stamp) digest header
      ∙ ap
          (λ ts.
            if ltb tolerance (distance time (pos stamp))
            then ok false
            else compare_digest (digest_of hmac_hex secret payload ts) digest)
          (same_stamp stamp time positive)
      ∙ ap (λ r. if ltb tolerance (distance time (pos stamp)) then ok false else r)
          (compare_lem hex secret _)
      ∙ answer (ltb tolerance (distance time (pos stamp)))
    where
      answer : (b : Bool) → (if b then ok false else ok true) ≡ ok (not b)
      answer true = refl
      answer false = refl

  -- A header that verifies names a time within the tolerance and, as its digest, the HMAC under the
  -- secret of that time (or of the present one, in place of the time zero) and of the payload.
  pub verify_sound :
      (secret payload header : Text) (tolerance time : ℕ)
      → verify_signature hmac_hex secret payload header tolerance time ≡ ok true
      → (ts : ℤ) × (supplied : Text) × (parse_header header ≡ some (ts, supplied))
        × (distance time ts ≤ tolerance)
        × (supplied ≡ digest_of hmac_hex secret payload (stamp_of (some ts) time))
  unfolding verify_signature
  verify_sound secret payload header tolerance time e = elim (Option-cases (parse_header header)) [
    | inl none_found ↦
        absurd
          (ok_apart (sym (ap (check_parts hmac_hex secret payload tolerance time) none_found) ∙ e))
    | inr ((ts, supplied), found) ↦
        let (near, same) =
          sound_parts (ltb tolerance (distance time ts))
            (digest_of hmac_hex secret payload (stamp_of (some ts) time)) supplied
            (sym (verify_lem secret payload header tolerance time ts supplied found) ∙ e) in
        (ts, supplied, found, ground arith, same)
  ]

  -- A header of a time within the tolerance whose digest is a text with a character outside ASCII,
  -- without a comma, makes `verify_signature` raise in place of answering False, if the HMAC is
  -- written in hexadecimal.
  pub verify_raises :
      (secret payload supplied : Text) (stamp tolerance time : ℕ)
      → IsHex
      → Lacks b',' supplied
      → is_ascii supplied ≡ false
      → distance time (pos stamp) ≤ tolerance
      → (e : Error) × (verify_signature hmac_hex secret payload
            (signature_text (int_text (pos stamp)) supplied)
            tolerance
            time
          ≡ err e)
  verify_raises secret payload supplied stamp tolerance time hex plain odd near =
      let expected = digest_of hmac_hex secret payload (stamp_of (some (pos stamp)) time) in
      let within : ltb tolerance (distance time (pos stamp)) ≡ false = ground arith in
      (
        Error.runtime_error "comparing strings with non-ASCII characters is not supported",
        verify_lem secret payload _ tolerance time (pos stamp) supplied
              (parse_header-signature_text stamp supplied plain)
            ∙ rw within (rw (hex-ascii expected (hex secret _)) (rw odd refl)),
      )
