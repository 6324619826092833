-- ===== src/Workers/Post.antt =====
-- app/workers/tasks.py: the request that `deliver_webhook_task` posts, with its signature. HMAC,
-- Fernet and json.dumps are the record `Signer`.
use tenantflow_api.Core.Texts.{Text, chars}
use tenantflow_api.Prelude.{ℕ, ◌≡◌, ◌≢◌, refl, ◌∙◌, ap, String, none, not, ltb}
use tenantflow_api.Core.Errors.{ok}
use tenantflow_api.Core.Decimal.{pos, distance}
use tenantflow_api.Db.Json.{Json}
use tenantflow_api.Db.Models.{WebhookEndpoint, WebhookDelivery}
use tenantflow_api.Db.Session.{Platform, World}
use tenantflow_api.Db.Session.Triple.{
  Triple, Triple-bind, Triple-pure, Triple-lift, Triple-raise_if, Triple-flush, Triple-weaken,
  Triple-run, Keeps-now, Keeps-new_uuid, Keeps-new_token,
}
use tenantflow_api.Webhooks.Targets.{Network}
use tenantflow_api.Webhooks.Service.{Cipher, WebhookCreate, create_webhook_endpoint}
use tenantflow_api.Webhooks.Signing.{create_signature, verify_signature}
use tenantflow_api.Webhooks.Signing.RoundTrip.{IsHex, verify_signature-create_signature}

pub record Signer : Type 0 where
  pub hmac_hex : Text → Text → Text
  pub decrypt : String → String
  pub dumps : Json → Text

-- the POST: the URL, the body, and the headers that are not constant
pub record SignedPost : Type 0 where
  pub url : String
  pub content : Text
  pub signature : Text
  pub event : String
  pub event_id : ℕ

-- `time` is the int(time.time()) of create_signature
unfoldable pub signed_post : Signer → ℕ → WebhookEndpoint → WebhookDelivery → SignedPost
unfolding create_signature chars
signed_post s time e x = record {
  url = e.url;
  content = s.dumps x.payload;
  signature =
      create_signature s.hmac_hex (chars (s.decrypt e.signing_secret_encrypted)) (s.dumps x.payload)
        none time;
  event = x.event_type;
  event_id = x.event_id;
}

module _ ⦃p : Platform⦄ (network : Network) (cipher : Cipher) where
  -- the endpoint that is created holds the secret that is answered
  created_secret :
      (o user : ℕ) (payload : WebhookCreate)
      → Triple
          (λ w. Unit)
          (create_webhook_endpoint network cipher o user payload)
          (λ r w. (r.0).signing_secret_encrypted ≡ cipher.encrypt r.1)
  unfolding create_webhook_endpoint
  created_secret o user payload = Triple-bind _ _ (Triple-raise_if _ _ _) λ _.
      Triple-bind _ _ (Triple-lift _ _) λ _.
        Triple-bind _ _ (Triple-weaken (λ w h. tt) (Keeps-new_token (λ d. Unit))) λ token.
          Triple-bind _ _ (Keeps-now (λ d. Unit)) λ _.
            Triple-bind _ _ (Keeps-new_uuid (λ d. Unit)) λ id.
              Triple-bind _ _ (Triple-flush {Q = λ _ w. Unit} _ _ (λ w h fits. tt))
                λ _. Triple-pure _ (λ w h. refl)

  -- The request that the worker posts to an endpoint verifies under the secret that the creation of
  -- the endpoint answered, exactly as long as its time is within 300 seconds of that of the
  -- verification, if Fernet decrypts what it encrypted, the digest is written in hexadecimal and
  -- the time of the signature is not zero.
  pub posted_verifies :
      (s : Signer) (o user : ℕ) (payload : WebhookCreate) (w v : World) (e : WebhookEndpoint)
      (secret : String) (x : WebhookDelivery) (made time : ℕ)
      → IsHex s.hmac_hex
      → ((text : String) → s.decrypt (cipher.encrypt text) ≡ text)
      → create_webhook_endpoint network cipher o user payload w ≡ (ok (e, secret), v)
      → made ≢ 0
      → let post = signed_post s made e x in
        verify_signature s.hmac_hex (chars secret) post.content post.signature 300 time
        ≡ ok (not (ltb 300 (distance time (pos made))))
  unfolding signed_post
  posted_verifies s o user payload w v e secret x made time hex restores created positive =
      let stored = Triple-run (created_secret o user payload) w v (e, secret) tt created in
      let same : s.decrypt e.signing_secret_encrypted ≡ secret =
        ap s.decrypt stored ∙ restores secret in
      rw same (
        verify_signature-create_signature s.hmac_hex (chars secret) (s.dumps x.payload) none made
          made 300 time hex refl positive)
