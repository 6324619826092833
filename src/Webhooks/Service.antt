-- ===== src/Webhooks/Service.antt =====
-- app/modules/webhooks/service.py, and SUPPORTED_EVENTS of schemas.py. Fernet and SHA-256 are
-- the record `Cipher`.
use Prim.Native.Char.{code}
use Prim.Native.String.{◌++◌ as str_append}
use tenantflow_api.Prelude.{
  ℕ, ◌==◌, String, Bool, true, false, not, ◌&&◌, ◌||◌, List, [], ◌∷◌, ◌++◌, str_eq, exists,
  order_by, ltb, if◌then◌else◌,
}
use tenantflow_api.Core.Errors.{Error}
use tenantflow_api.Db.Models.{Database, WebhookEndpoint}
use tenantflow_api.Db.Constraints.{webhook_endpoint_fits}
use tenantflow_api.Db.Session.{
  Platform, Action, pure, raise_if, lift, flush, now, new_uuid, new_token, ◌>>=◌, ◌>>◌,
}
use tenantflow_api.Webhooks.Targets.{Network, validate_webhook_target}

pub record Cipher : Type 0 where
  pub sha256 : String → String
  pub encrypt : String → String

pub record WebhookCreate : Type 0 where
  pub url : String
  pub events : List String

abbrev pub supported_events : List String
supported_events =
    "project.created" ∷ "project.updated" ∷ "project.deleted" ∷ "task.created" ∷ "task.updated"
    ∷ "task.completed" ∷ "task.deleted" ∷ "member.invited" ∷ []

unfoldable pub has_text : List String → String → Bool
has_text ts t = exists (λ s. str_eq s t) ts

-- `set(payload.events) - SUPPORTED_EVENTS` is not empty
unfoldable pub has_unknown : List String → Bool
unfolding has_text
has_unknown events = exists (λ e. not (has_text supported_events e)) events

-- set(events)
unfoldable pub distinct : List String → List String
unfolding has_text
distinct [] = []
distinct (e ∷ es) = let rest = distinct es in if has_text rest e then rest else e ∷ rest

-- Python's order of texts, by code points
unfoldable pub text_le : String → String → Bool
text_le String.[] t = true
text_le (String.◌∷◌ c s) String.[] = false
text_le (String.◌∷◌ c s) (String.◌∷◌ d t) =
    let rest = text_le s t in ltb (code c) (code d) || (code c == code d && rest)

abbrev pub insert_endpoint : WebhookEndpoint → Database → Database
insert_endpoint r d = record d { webhook_endpoints = d.webhook_endpoints ++ r ∷ [] }

module _ ⦃p : Platform⦄ (network : Network) (cipher : Cipher) where
  unfoldable pub create_webhook_endpoint : ℕ → ℕ → WebhookCreate → Action (WebhookEndpoint × String)
  unfolding has_unknown distinct text_le validate_webhook_target
  create_webhook_endpoint organization_id user_id payload = do
    raise_if (has_unknown payload.events) (Error.value_error "Unsupported events")
    lift (validate_webhook_target p.settings network payload.url)
    token ← new_token
    let secret = str_append "whsec_" token
    created_at ← now
    id ← new_uuid
    let endpoint : WebhookEndpoint = record {
      id = id;
      created_at = created_at;
      organization_id = organization_id;
      url = payload.url;
      signing_secret_hash = cipher.sha256 secret;
      signing_secret_encrypted = cipher.encrypt secret;
      events = order_by text_le (distinct payload.events);
      is_active = true;
      created_by = user_id;
    }
    flush (λ d. webhook_endpoint_fits d endpoint) (insert_endpoint endpoint)
    pure (endpoint, secret)
