-- ===== src/Examples/Surroundings.antt =====
-- The middlewares, the gauges, the migration and a list at work.
use mathlib.Core.List.{Memᴰ}
use tenantflow_api.Prelude.{
  ℕ, ◌+◌, ◌≡◌, refl, String, Bool, true, false, Option, none, some, List, [], ◌∷◌, ◌++◌, str_eq,
  str_eq_refl, present, Bool-cases, inl, inr, ◌∙◌, ap, sym, arith, if◌then◌else◌, str_eq→eq,
}
use tenantflow_api.Core.Errors.{Error, ErrorResponse, ok, err, error_response}
use tenantflow_api.Db.Json.{end}
use tenantflow_api.Db.Models.{AuditLog}
use tenantflow_api.Db.Session.{World, request}
use tenantflow_api.Migrations.Catalog.{Catalog, Table, run}
use tenantflow_api.Migrations.Columns.{required, unique}
use tenantflow_api.Migrations.Initial.{upgrade, downgrade}
use tenantflow_api.Migrations.Frame.{downgrade-upgrade}
use tenantflow_api.Observability.Metrics.{
  Counters, Gauges, field_or_zero, refresh_distributed_metrics,
}
use tenantflow_api.Observability.Gauges.{Recorded, record_all, occurrences, gauges_lem}
use tenantflow_api.Http.Middleware.{Headers, HttpRequest, HttpResponse, Telemetry, App, stack}
use tenantflow_api.Http.Answers.{
  IsHeaders, Identified, IsStamped, finished, response-IsStamped, unhandled_lem,
}
use tenantflow_api.Examples.World.{settings, db, at}

-- the catalogue of a database in which Alembic keeps its version
abbrev versions : Catalog
versions = record {
  tables =
      record {
        name = "alembic_version";
        columns = required "version_num" (tenantflow_api.Migrations.Catalog.string 32) ∷ [];
        uniques = unique "alembic_version_pkc" ("version_num" ∷ []) ∷ [];
        checks = [];
        foreign_keys = [];
      }
      ∷ [];
  indexes = [];
}

downgrade-upgrade_example :
    (d : Catalog) × (run upgrade versions ≡ some d) × (run downgrade d ≡ some versions)
unfolding upgrade downgrade tenantflow_api.Migrations.Catalog.is_taken tenantflow_api.Prelude.exists
    tenantflow_api.Migrations.Catalog.are_free
downgrade-upgrade_example =
    downgrade-upgrade versions
      (
        refl,
        (
          refl,
          (
            refl,
            (
              refl,
              (
                refl,
                (
                  refl,
                  (
                    refl,
                    (
                      refl,
                      (
                        refl,
                        (
                          refl,
                          (
                            refl,
                            (
                              refl,
                              (
                                refl,
                                (
                                  refl,
                                  (
                                    refl,
                                    (
                                      refl,
                                      (
                                        refl,
                                        (
                                          refl,
                                          (
                                            refl,
                                            (
                                              refl,
                                              (
                                                refl,
                                                (refl, (refl, (refl, (refl, (refl, (refl, tt)))))),
                                              ),
                                            ),
                                          ),
                                        ),
                                      ),
                                    ),
                                  ),
                                ),
                              ),
                            ),
                          ),
                        ),
                      ),
                    ),
                  ),
                ),
              ),
            ),
          ),
        ),
      )
      (
        (refl, refl, refl),
        (
          (refl, refl, refl),
          (
            (refl, refl, refl),
            (
              (refl, refl, refl),
              (
                (refl, refl, refl),
                (
                  (refl, refl, refl),
                  (
                    (refl, refl, refl),
                    (
                      (refl, refl, refl),
                      (
                        (refl, refl, refl),
                        (
                          (refl, refl, refl),
                          (
                            (refl, refl, refl),
                            ((refl, refl, refl), ((refl, refl, refl), ((refl, refl, refl), tt))),
                          ),
                        ),
                      ),
                    ),
                  ),
                ),
              ),
            ),
          ),
        ),
      )

abbrev no_counters : Counters
no_counters = record { background = []; webhook = [] }

abbrev no_gauges : Gauges
no_gauges = record { background_job_outcomes = λ l. 0; webhook_delivery_outcomes = λ o. 0 }

-- a clean-up that was recorded, and one that Redis did not take
abbrev jobs : List Recorded
jobs = (true, ("cleanup", "success")) ∷ (false, ("cleanup", "retry")) ∷ []

gauges_lem_example :
    (refresh_distributed_metrics true true
        (record_all jobs no_counters)
        no_gauges).background_job_outcomes
      ("cleanup", "success")
    ≡ field_or_zero "cleanup:success" [] + occurrences ("cleanup", "success") jobs
gauges_lem_example =
    gauges_lem jobs no_counters no_gauges ("cleanup", "success")
      (Memᴰ.tail (Memᴰ.tail (Memᴰ.tail (Memᴰ.head refl))))
      (
        Memᴰ.tail (Memᴰ.tail (Memᴰ.tail (Memᴰ.head refl))),
        (Memᴰ.tail (Memᴰ.tail (Memᴰ.tail (Memᴰ.tail (Memᴰ.head refl)))), tt),
      )

-- headers as a map
abbrev header_map : Headers
header_map = record {
  carrier = String → Option String;
  get = λ n h. h n;
  set = λ n v h m. if str_eq m n then some v else h m;
  setdefault = λ n v h m. if present (h n) then h m else if str_eq m n then some v else h m;
}

true-false : true ≡ false → ⊥
true-false h = cc

map-IsHeaders : IsHeaders header_map
map-IsHeaders = record {
  get-set = λ n v h. rw (str_eq_refl n) refl;
  kept-set = λ m n v h ours other. rw other refl;
  get-setdefault = λ n v h. elim (Bool-cases (present (h n))) [
    | inl e ↦ rw e e
    | inr e ↦ rw e (rw (str_eq_refl n) refl)
  ];
  kept-setdefault = λ m n v h k. elim (Bool-cases (present (h n))) [
    | inl e ↦ rw e refl
    | inr e ↦ elim (Bool-cases (str_eq m n)) [
      | inl f ↦ absurd (true-false (sym k ∙ ap (λ x. present (h x)) (str_eq→eq m n f) ∙ e))
      | inr f ↦ rw e (rw f refl)
    ]
  ];
}

abbrev answer_headers : ErrorResponse → header_map.carrier
answer_headers e name = none

abbrev asked : HttpRequest
asked = record {
  method = "GET";
  path = "/api/v1/projects";
  route = some "/api/v1/projects";
  x_request_id = some "client-7";
  state_request_id = none;
}

abbrev silent : Telemetry
silent = record { lines = []; requests = [] }

abbrev plain : HttpResponse header_map
plain = record {
  status_code = 200;
  headers = answer_headers (error_response Error.integrity);
  error = none;
}

abbrev answers : App header_map
answers request t = (ok plain, t)

abbrev raises : Error → App header_map
raises e request t = (err e, t)

response-IsStamped_example :
    let r = finished header_map map-IsHeaders answer_headers settings "fresh" asked plain in
    let (answer, v) = stack header_map answer_headers settings "fresh" answers asked silent in
    (id : String) × Identified "fresh" asked.x_request_id id
    × (header_map.get "X-Request-ID" r.headers ≡ some id)
    × (answer ≡ ok r)
    × IsStamped header_map map-IsHeaders answer_headers settings "fresh" asked silent v r
response-IsStamped_example =
    response-IsStamped header_map map-IsHeaders answer_headers settings "fresh" answers asked silent
      silent plain refl

unhandled_lem_example :
    stack header_map answer_headers settings "fresh"
      (raises (Error.runtime_error "no body"))
      asked
      silent
    ≡ (err (Error.runtime_error "no body"), silent)
unhandled_lem_example =
    unhandled_lem header_map map-IsHeaders answer_headers settings "fresh"
      (raises (Error.runtime_error "no body")) asked silent silent (Error.runtime_error "no body")
      refl refl

-- an audit row
abbrev row : ℕ → ℕ → AuditLog
row k o = record {
  id = k;
  organization_id = o;
  actor_id = some 1;
  action = "project.created";
  entity_type = "project";
  entity_id = none;
  metadata_json = end;
  created_at = k;
}

-- audit rows of the two organizations
abbrev audited : World
audited = at 0 (record db { audit_logs = row 1 10 ∷ row 2 11 ∷ row 3 10 ∷ [] })
