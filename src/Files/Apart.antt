-- ===== src/Files/Apart.antt =====
-- app/integrations/storage.py: the objects of different organizations have different keys.
use Prim.Native.Char.{code}
use Prim.Native.String.{◌++◌ as str_append}
use tenantflow_api.Prelude.{
  ℕ, ◌≡◌, ◌≢◌, refl, ◌∙◌, ap, sym, String, true, false, ◌&&◌, not, Option, none, some, List, [],
  ◌∷◌, ◌++◌, All-append, ◌==◌, arith, Bool-cases, inl, inr, and_both, ==→eq, str_eq,
}
use tenantflow_api.Core.Texts.{
  Text, chars, chars-append, split_on, Lacks, split_on-Lacks, split_on-append,
}
use tenantflow_api.Db.Session.{Platform}
use tenantflow_api.Files.Keys.{
  Spelling, last_suffix, all_alnum, is_safe_suffix, safe_suffix, lowered, build_object_key,
}

false-true : false ≡ true → ⊥
false-true h = cc

-- The text of a UUID has no slash, and tells the UUID; a slash is not alphanumeric.
pub record IsSpelling (w : Spelling) : Type 0 where
  pub plain : (k : ℕ) → Lacks b'/' (chars (w.uuid_text k))
  pub distinct : (j k : ℕ) → chars (w.uuid_text j) ≡ chars (w.uuid_text k) → j ≡ k
  pub slash : w.is_alnum b'/' ≡ false

organizations-Lacks : Lacks b'/' (chars "organizations")
unfolding chars
organizations-Lacks = ground arith

abbrev second : List Text → Text
second (a ∷ b ∷ rest) = b
second _ = []

module _ ⦃p : Platform⦄ (w : Spelling) (laws : IsSpelling w) where
  alnum-Lacks : (s : String) → all_alnum w s ≡ true → Lacks b'/' (chars s)
  unfolding all_alnum chars
  alnum-Lacks String.[] h = tt
  alnum-Lacks (String.◌∷◌ c s) h =
      let k = and_both (w.is_alnum (code c)) (all_alnum w s) h in
      (no_slash (code c) k.0, alnum-Lacks s k.1)
    where
      no_slash : (c : ℕ) → w.is_alnum c ≡ true → (c == b'/') ≡ false
      no_slash c h = elim (Bool-cases (c == b'/')) [
        | inl e ↦ absurd (false-true (sym laws.slash ∙ ap w.is_alnum (sym (==→eq c b'/' e)) ∙ h))
        | inr e ↦ e
      ]

  suffix-Lacks : (suffix : Option String) → Lacks b'/' (chars (safe_suffix w suffix))
  unfolding chars
  suffix-Lacks none = (refl, (refl, (refl, tt)))
  suffix-Lacks (some s) = elim (Bool-cases (is_safe_suffix w s)) [
    | inl e ↦ rw e (
        alnum-Lacks s
          (and_both (not (str_eq s "")) (all_alnum w s)
            (and_both (not (str_eq s "") && all_alnum w s) _ e).0).1)
    | inr e ↦ rw e (refl, (refl, (refl, tt)))
  ]

  -- the parts of a key between its slashes
  split_key :
      (o : ℕ) (filename : String) (k : ℕ)
      → split_on b'/' (chars (build_object_key w o filename k))
        ≡ chars "organizations"
          ∷ chars (w.uuid_text o)
          ∷ (chars (w.uuid_text k)
              ++ b'.' ∷ chars (safe_suffix w (lowered w (last_suffix filename))))
          ∷ []
  unfolding build_object_key chars
  split_key o filename k =
      let suffix = safe_suffix w (lowered w (last_suffix filename)) in
      let tail : Text = chars (w.uuid_text k) ++ b'.' ∷ chars suffix in
      let last : chars (str_append (w.uuid_text k) (str_append "." suffix)) ≡ tail =
        chars-append (w.uuid_text k) (str_append "." suffix)
        ∙ ap (λ t. chars (w.uuid_text k) ++ t) (chars-append "." suffix) in
      let named =
        str_append (w.uuid_text o)
          (str_append "/" (str_append (w.uuid_text k) (str_append "." suffix))) in
      let middle : chars named ≡ chars (w.uuid_text o) ++ b'/' ∷ tail =
        chars-append (w.uuid_text o) _
        ∙ ap (λ t. chars (w.uuid_text o) ++ t) (chars-append "/" _ ∙ ap (λ t. b'/' ∷ t) last) in
      ap (split_on b'/')
        (chars-append "organizations/" named ∙ ap (λ t. chars "organizations" ++ b'/' ∷ t) middle)
      ∙ split_on-append b'/' (chars "organizations") _ organizations-Lacks
      ∙ ap (λ ts. chars "organizations" ∷ ts)
          (split_on-append b'/' (chars (w.uuid_text o)) tail (laws.plain o)
            ∙ ap (λ ts. chars (w.uuid_text o) ∷ ts)
                (split_on-Lacks b'/' tail (
                  All-append _ (chars (w.uuid_text k)) _ (laws.plain k)
                    (refl, suffix-Lacks (lowered w (last_suffix filename))))))

  -- The object keys of two organizations are different, whatever the names of the files and the random
  -- parts of the keys, if a UUID's text has no slash and tells the UUID, and a slash is not
  -- alphanumeric.
  pub keys_apart :
      (o q : ℕ) (file other : String) (k j : ℕ)
      → o ≢ q
      → build_object_key w o file k ≢ build_object_key w q other j
  unfolding chars
  keys_apart o q file other k j different same = different (
      laws.distinct o q (
        ap second (
          sym (split_key o file k) ∙ ap (λ s. split_on b'/' (chars s)) same ∙ split_key q other j)))
