-- ===== src/Observability/Metrics.antt =====
-- app/observability/metrics.py. The two hashes live in Redis; whether Redis answers a call is an
-- argument, and the values of a hash are the numbers that its texts write. A gauge maps its labels to
-- what it shows.
use Prim.Native.String.{◌++◌ as str_append}
use tenantflow_api.Prelude.{ℕ, ◌+◌, String, Bool, ◌&&◌, List, [], ◌∷◌, str_eq, if◌then◌else◌}

abbrev pub Labels : Type 0
Labels = String × String

abbrev pub same_labels : Labels → Labels → Bool
same_labels (j, o) (k, u) = str_eq j k && str_eq o u

abbrev pub background_labels : List Labels
background_labels =
    ("invitation_email", "success")
    ∷ ("invitation_email", "skipped")
    ∷ ("invitation_email", "retry")
    ∷ ("cleanup", "success")
    ∷ ("cleanup", "retry")
    ∷ ("webhook_delivery", "success")
    ∷ ("webhook_delivery", "retry")
    ∷ ("webhook_delivery", "dead")
    ∷ ("webhook_delivery", "skipped")
    ∷ []

abbrev pub webhook_labels : List String
webhook_labels = "delivered" ∷ "retry" ∷ "dead" ∷ "skipped" ∷ []

abbrev pub Hash : Type 0
Hash = List (String × ℕ)

-- hash.get(field, 0)
unfoldable pub field_or_zero : String → Hash → ℕ
field_or_zero k [] = 0
field_or_zero k ((j, n) ∷ rest) =
    let later = field_or_zero k rest in if str_eq j k then n else later

-- HINCRBY hash field 1
unfoldable pub hincrby : String → Hash → Hash
hincrby k [] = (k, 1) ∷ []
hincrby k ((j, n) ∷ rest) =
    let later = hincrby k rest in if str_eq j k then (j, n + 1) ∷ rest else (j, n) ∷ later

pub record Counters : Type 0 where
  pub background : Hash
  pub webhook : Hash

-- f"{job}:{outcome}"
abbrev pub background_field : Labels → String
background_field (job, outcome) = str_append job (str_append ":" outcome)

unfoldable pub record_background_job : Bool → Labels → Counters → Counters
unfolding hincrby
record_background_job answers labels c =
    if answers then record c { background = hincrby (background_field labels) c.background } else c

unfoldable pub record_webhook_delivery : Bool → String → Counters → Counters
unfolding hincrby
record_webhook_delivery answers outcome c =
    if answers then record c { webhook = hincrby outcome c.webhook } else c

pub record Gauges : Type 0 where
  pub background_job_outcomes : Labels → ℕ
  pub webhook_delivery_outcomes : String → ℕ

-- GAUGE.labels(…).set(value) for each of the labels
unfoldable pub set_background : Hash → List Labels → (Labels → ℕ) → Labels → ℕ
unfolding field_or_zero
set_background h [] g l = g l
set_background h (k ∷ ks) g l =
    let later = set_background h ks g l in
    if same_labels k l then field_or_zero (background_field k) h else later

unfoldable pub set_webhook : Hash → List String → (String → ℕ) → String → ℕ
unfolding field_or_zero
set_webhook h [] g l = g l
set_webhook h (k ∷ ks) g l =
    let later = set_webhook h ks g l in if str_eq k l then field_or_zero k h else later

-- the two flags tell whether each of the two HGETALL is answered
unfoldable pub refresh_distributed_metrics : Bool → Bool → Counters → Gauges → Gauges
unfolding set_background set_webhook
refresh_distributed_metrics first second c g =
    if first && second
    then record {
      background_job_outcomes =
          set_background c.background background_labels g.background_job_outcomes;
      webhook_delivery_outcomes = set_webhook c.webhook webhook_labels g.webhook_delivery_outcomes;
    }
    else g
