-- ===== src/Webhooks/Public.antt =====
-- app/modules/webhooks/target_validation.py: which targets pass, and what the check of the settings at
-- start makes of it.
use tenantflow_api.Prelude.{
  ℕ, ◌≡◌, refl, ap, ◌∙◌, sym, String, Bool, true, false, not, Option, none, some, List, [], ◌∷◌,
  All, exists, Bool-cases, Option-cases, inl, inr, arith, if◌then◌else◌, ⊤, str_eq,
}
use tenantflow_api.Core.Errors.{ok, err, err_ok, Error}
use tenantflow_api.Core.Config.{
  Settings, is_production, validate_runtime_secrets, is_weak_jwt_secret, is_weak_webhook_key,
}
use tenantflow_api.Webhooks.Targets.{
  Network, check_resolved, check_host, check_hostname, validate_webhook_target,
}

-- the addresses that a host stands for: its own, or what the resolver answers
abbrev pub addresses_of : Option ℕ → Option (List ℕ) → List ℕ
addresses_of (some a) resolved = a ∷ []
addresses_of none none = []
addresses_of none (some resolved) = resolved

-- the target has a host, which has an address, and all of its addresses are public
pub record IsPublic (n : Network) (url : String) : Type 0 where
  pub host : String
  pub first : ℕ
  pub more : List ℕ
  pub named : n.hostname url ≡ some host
  pub stands_for : addresses_of (n.ip_address host) (n.getaddrinfo host) ≡ first ∷ more
  pub public : All (λ a. n.is_global a ≡ true) (first ∷ more)

none_exists :
    (n : Network) (xs : List ℕ)
    → exists (λ x. not (n.is_global x)) xs ≡ false
    → All (λ a. n.is_global a ≡ true) xs
unfolding exists
none_exists n [] h = tt
none_exists n (x ∷ xs) h = (ground arith, none_exists n xs (ground arith))

module _ (n : Network) where
  resolved-IsPublic :
      (url host : String) (u : ⊤) (resolved : Option (List ℕ))
      → n.hostname url ≡ some host
      → n.ip_address host ≡ none
      → n.getaddrinfo host ≡ resolved
      → check_resolved n resolved ≡ ok u
      → IsPublic n url
  unfolding check_resolved
  resolved-IsPublic url host u none named no_ip r h = absurd (err_ok h)
  resolved-IsPublic url host u (some []) named no_ip r h = absurd (err_ok h)
  resolved-IsPublic url host u (some (a ∷ more)) named no_ip r h =
      elim (Bool-cases (exists (λ x. not (n.is_global x)) (a ∷ more))) [
        | inl bad ↦ absurd (err_ok (rw bad at h))
        | inr good ↦ record {
          host = host;
          first = a;
          more = more;
          named = named;
          stands_for = rw no_ip (rw r refl);
          public = none_exists n (a ∷ more) good;
        }
      ]

  host-IsPublic :
      (url host : String) (u : ⊤) (ip : Option ℕ)
      → n.hostname url ≡ some host
      → n.ip_address host ≡ ip
      → check_host n host ip ≡ ok u
      → IsPublic n url
  unfolding check_host
  host-IsPublic url host u none named ip h =
      resolved-IsPublic url host u (n.getaddrinfo host) named ip refl h
  host-IsPublic url host u (some a) named ip h = elim (Bool-cases (n.is_global a)) [
    | inl good ↦ record {
      host = host;
      first = a;
      more = [];
      named = named;
      stands_for = rw ip refl;
      public = (good, tt);
    }
    | inr bad ↦ absurd (err_ok (rw bad at h))
  ]

  -- where private targets are not allowed, a target that passes is public
  IsPublic-of :
      (s : Settings) (url : String) (u : ⊤)
      → s.webhook_allow_private_targets ≡ false
      → validate_webhook_target s n url ≡ ok u
      → IsPublic n url
  unfolding validate_webhook_target check_hostname
  IsPublic-of s url u strict h = elim (Option-cases (n.hostname url)) [
    | inl unnamed ↦ absurd (
        err_ok (
          sym (ap (check_hostname n) unnamed)
          ∙ sym (ap (λ b. if b then ok tt else check_hostname n (n.hostname url)) strict)
          ∙ h))
    | inr (host, named) ↦ host-IsPublic url host u (n.ip_address host) named refl (
        sym (ap (check_hostname n) named)
        ∙ sym (ap (λ b. if b then ok tt else check_hostname n (n.hostname url)) strict)
        ∙ h)
  ]

-- the last of four checks did not fail
last_passes :
    (p a b c q : Bool) (e f g i : Error) (u : ⊤)
    → p ≡ true
    → (if p
        then if a
          then err e
          else if b
          then err f
          else if c
          then err g
          else if q
          then err i
          else ok tt
        else ok tt)
      ≡ ok u
    → q ≡ false
last_passes false a b c q e f g i u k h = absurd (ground arith)
last_passes true true b c q e f g i u k h = absurd (err_ok h)
last_passes true false true c q e f g i u k h = absurd (err_ok h)
last_passes true false false true q e f g i u k h = absurd (err_ok h)
last_passes true false false false true e f g i u k h = absurd (err_ok h)
last_passes true false false false false e f g i u k h = refl

strict_of :
    (s : Settings) (u : ⊤)
    → is_production s ≡ true
    → validate_runtime_secrets s ≡ ok u
    → s.webhook_allow_private_targets ≡ false
unfolding validate_runtime_secrets
strict_of s u production h =
    last_passes (is_production s) (is_weak_jwt_secret s.jwt_secret)
      (is_weak_webhook_key s.webhook_encryption_key) (str_eq s.jwt_secret s.webhook_encryption_key)
      s.webhook_allow_private_targets _ _ _ _ u production h

-- In production, where the settings have passed the check at start, a webhook target that passes has a
-- host with at least one address, and every address that the host has or resolves to is public.
pub production_targets :
    (s : Settings) (n : Network) (url : String) (u v : ⊤)
    → is_production s ≡ true
    → validate_runtime_secrets s ≡ ok u
    → validate_webhook_target s n url ≡ ok v
    → IsPublic n url
production_targets s n url u v production started passed =
    IsPublic-of n s url v (strict_of s u production started) passed
