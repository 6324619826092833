-- ===== src/Examples/Deliveries.antt =====
-- The life and the signature of a delivery at work.
use tenantflow_api.Core.Texts.{Text, chars}
use tenantflow_api.Prelude.{
  ℕ, ◌≡◌, refl, ◌+◌, String, true, false, not, ltb, none, some, List, [], ◌∷◌, arith, ◌≤◌,
}
use tenantflow_api.Core.Errors.{Error, Result, ok, err}
use tenantflow_api.Core.Config.{Settings, AppEnv}
use tenantflow_api.Core.Decimal.{ℤ, pos, int_text, distance}
use tenantflow_api.Db.Models.{WebhookEndpoint}
use tenantflow_api.Db.Session.{World, request}
use tenantflow_api.Webhooks.Targets.{validate_webhook_target}
use tenantflow_api.Webhooks.Service.{Cipher, create_webhook_endpoint}
use tenantflow_api.Webhooks.Signing.{
  parse_header, signature_text, create_signature, verify_signature, digest_of, stamp_of,
}
use tenantflow_api.Webhooks.Signing.RoundTrip.{verify_sound, verify_raises}
use tenantflow_api.Webhooks.Public.{IsPublic, production_targets}
use tenantflow_api.Workers.Deliver.{response, get_delivery}
use tenantflow_api.Workers.Tasks.{deliver_webhook_task}
use tenantflow_api.Workers.Endings.{Ended, finished-Ended}
use tenantflow_api.Workers.Post.{Signer, signed_post, posted_verifies}
use tenantflow_api.Examples.World.{demo, settings, start}
use tenantflow_api.Examples.Workers.{network, endpoint, fresh, holding}

abbrev task_end : World
task_end = (deliver_webhook_task ⦃p = demo⦄ network 50 0 (response 200) (holding fresh)).1

finished-Ended_example : Ended ⦃p = demo⦄ network 50 task_end
unfolding deliver_webhook_task get_delivery tenantflow_api.Prelude.scalar
    tenantflow_api.Prelude.exists tenantflow_api.Db.Session.◌>>=◌
finished-Ended_example =
    finished-Ended ⦃p = demo⦄ network 50 0 (response 200) (holding fresh) task_end (fresh, refl)
      refl

-- a digest that is the same for all
abbrev hmac_hex : Text → Text → Text
hmac_hex key message = b'a' ∷ b'1' ∷ []

abbrev signer : Signer
signer = record { hmac_hex = hmac_hex; decrypt = λ s. s; dumps = λ j. b'{' ∷ b'}' ∷ [] }

abbrev cipher : Cipher
cipher = record { sha256 = λ s. s; encrypt = λ s. s }

-- alice registers an endpoint
abbrev made : Result (WebhookEndpoint × String) × World
made =
    create_webhook_endpoint ⦃p = demo⦄ network cipher 10 1
      (record { url = "https://hooks.example.com"; events = "task.created" ∷ [] }) start

abbrev registered : WebhookEndpoint
registered = record endpoint {
  id = 102;
  created_at = 1001;
  signing_secret_hash = "whsec_token";
  signing_secret_encrypted = "whsec_token";
}

posted_verifies_example :
    let post = signed_post signer 1000 registered fresh in
    verify_signature hmac_hex (chars "whsec_token") post.content post.signature 300 1200
    ≡ ok (not (ltb 300 (distance 1200 (pos 1000))))
unfolding create_webhook_endpoint tenantflow_api.Db.Session.◌>>=◌ tenantflow_api.Prelude.exists
    tenantflow_api.Db.Constraints.webhook_endpoint_fits tenantflow_api.Examples.World.tokens
    tenantflow_api.Prelude.order_by
posted_verifies_example =
    posted_verifies ⦃p = demo⦄ network cipher signer 10 1
      (record { url = "https://hooks.example.com"; events = "task.created" ∷ [] }) start made.1
      registered "whsec_token" fresh 1000 1200 (λ key message. (refl, (refl, tt))) (λ text. refl)
      refl (λ e. ground arith)

abbrev header : Text
header = create_signature hmac_hex (b's' ∷ []) (b'{' ∷ []) (some (pos 7)) 7

verify_sound_example :
    (ts : ℤ) × (supplied : Text) × (parse_header header ≡ some (ts, supplied))
    × (distance 9 ts ≤ 5)
    × (supplied ≡ digest_of hmac_hex (b's' ∷ []) (b'{' ∷ []) (stamp_of (some ts) 9))
unfolding verify_signature
verify_sound_example = verify_sound hmac_hex (b's' ∷ []) (b'{' ∷ []) header 5 9 refl

verify_raises_example :
    (e : Error) × (verify_signature hmac_hex
        (b's' ∷ [])
        (b'{' ∷ [])
        (signature_text (int_text (pos 7)) (200 ∷ []))
        5
        9
      ≡ err e)
verify_raises_example =
    verify_raises hmac_hex (b's' ∷ []) (b'{' ∷ []) (200 ∷ []) 7 5 9
      (λ key message. (refl, (refl, tt))) (refl, tt) refl (omega arith)

-- settings that pass the check at start
abbrev live : Settings
live = record settings {
  app_env = AppEnv.production;
  jwt_secret = "0123456789abcdef0123456789abcdef";
  webhook_encryption_key = "fedcba9876543210fedcba9876543210";
}

production_targets_example : IsPublic network "https://hooks.example.com"
unfolding validate_webhook_target tenantflow_api.Core.Config.validate_runtime_secrets
    tenantflow_api.Core.Config.is_production tenantflow_api.Prelude.exists
production_targets_example =
    production_targets live network "https://hooks.example.com" tt tt refl refl refl
