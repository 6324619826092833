-- ===== src/Core/Texts.antt =====
-- Texts as the codes of their characters, and str.split on one of them.
use Prim.Native.Char.{code}
use Prim.Native.String.append
use Prim.Native.String.{◌++◌ as str_append}
use tenantflow_api.Prelude.{
  ℕ, ◌≡◌, refl, ap, ◌∙◌, String, false, List, [], ◌∷◌, ◌++◌, All, ◌==◌, ==-refl, if◌then◌else◌,
}

abbrev pub Text : Type 0
Text = List ℕ

-- str.encode, over the codes of the characters
unfoldable pub chars : String → Text
chars String.[] = []
chars (String.◌∷◌ c s) = code c ∷ chars s

pub chars-append : (s t : String) → chars (str_append s t) ≡ chars s ++ chars t
unfolding chars
chars-append String.[] t = ap chars (append.nil t)
chars-append (String.◌∷◌ c s) t =
    ap chars (append.cons c s t) ∙ ap (λ u. code c ∷ u) (chars-append s t)

-- str.split on one character
abbrev pub push : ℕ → List Text → List Text
push c [] = (c ∷ []) ∷ []
push c (t ∷ ts) = (c ∷ t) ∷ ts

unfoldable pub split_on : ℕ → Text → List Text
split_on sep [] = [] ∷ []
split_on sep (c ∷ cs) = let rest = split_on sep cs in if c == sep then [] ∷ rest else push c rest

-- a text without the character
abbrev pub Lacks : ℕ → Text → Type 0
Lacks sep text = All (λ c. (c == sep) ≡ false) text

pub split_on-Lacks : (sep : ℕ) (text : Text) → Lacks sep text → split_on sep text ≡ text ∷ []
unfolding split_on
split_on-Lacks sep [] h = refl
split_on-Lacks sep (c ∷ cs) h = rw (split_on-Lacks sep cs h.1) (rw h.0 refl)

pub split_on-append :
    (sep : ℕ) (a b : Text) → Lacks sep a → split_on sep (a ++ sep ∷ b) ≡ a ∷ split_on sep b
unfolding split_on
split_on-append sep [] b h = rw (==-refl sep) refl
split_on-append sep (c ∷ cs) b h = rw (split_on-append sep cs b h.1) (rw h.0 refl)
