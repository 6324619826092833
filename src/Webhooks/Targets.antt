-- ===== src/Webhooks/Targets.antt =====
-- app/modules/webhooks/target_validation.py. URL parsing, `ipaddress` and the resolver are the
-- record `Network`; an address is a number.
use tenantflow_api.Prelude.{
  ℕ, String, Bool, not, Option, none, some, List, [], ◌∷◌, exists, if◌then◌else◌, ⊤,
}
use tenantflow_api.Core.Errors.{Error, Result, ok, err}
use tenantflow_api.Core.Config.{Settings}

pub record Network : Type 0 where
  pub hostname : String → Option String
  pub ip_address : String → Option ℕ
  pub is_global : ℕ → Bool
  pub getaddrinfo : String → Option (List ℕ)

abbrev pub not_public : Error
not_public = Error.value_error "Webhook target must resolve to a public IP address"

-- `if not resolved or any(not _address_is_public(address) ...)`
unfoldable pub check_resolved : Network → Option (List ℕ) → Result ⊤
check_resolved n none = err (Error.value_error "Webhook target hostname could not be resolved")
check_resolved n (some []) =
    err (Error.value_error "Webhook target must resolve only to public IP addresses")
check_resolved n (some (a ∷ more)) =
    if exists (λ x. not (n.is_global x)) (a ∷ more)
    then err (Error.value_error "Webhook target must resolve only to public IP addresses")
    else ok tt

-- a host that is an address is not resolved
unfoldable pub check_host : Network → String → Option ℕ → Result ⊤
unfolding check_resolved
check_host n host (some address) = if n.is_global address then ok tt else err not_public
check_host n host none = check_resolved n (n.getaddrinfo host)

unfoldable pub check_hostname : Network → Option String → Result ⊤
unfolding check_host
check_hostname n none = err (Error.value_error "Webhook target must contain a hostname")
check_hostname n (some host) = check_host n host (n.ip_address host)

unfoldable pub validate_webhook_target : Settings → Network → String → Result ⊤
unfolding check_hostname
validate_webhook_target s n url =
    if s.webhook_allow_private_targets then ok tt else check_hostname n (n.hostname url)
