-- ===== src/Http/Health.antt =====
-- app/main.py: the health endpoints, and the scrape of the metrics. Whether PostgreSQL and Redis answer
-- is an argument; what generate_latest writes is Prometheus'.
use tenantflow_api.Prelude.{ℕ, String, Bool, ◌&&◌, List, [], ◌∷◌, str_eq, if◌then◌else◌, true}
use tenantflow_api.Observability.Metrics.{Counters, Gauges, refresh_distributed_metrics}

pub record Readiness : Type 0 where
  pub status_code : ℕ
  pub status : String
  pub checks : List (String × String)

abbrev pub liveness : String
liveness = "ok"

abbrev pub check : Bool → String
check answers = if answers then "ok" else "unavailable"

abbrev pub all_ok : List (String × String) → Bool
all_ok [] = true
all_ok ((name, value) ∷ rest) = str_eq value "ok" && all_ok rest

unfoldable pub readiness : Bool → Bool → Readiness
readiness postgresql redis =
    let checks = ("postgresql", check postgresql) ∷ ("redis", check redis) ∷ [] in
    record {
      status_code = if all_ok checks then 200 else 503;
      status = if all_ok checks then "ok" else "degraded";
      checks = checks;
    }

-- the gauges that a scrape shows
unfoldable pub metrics : Bool → Bool → Counters → Gauges → Gauges
unfolding refresh_distributed_metrics
metrics first second c g = refresh_distributed_metrics first second c g
