-- ===== src/Audit.antt =====
-- app/modules/audit/service.py.
pub mod Keeps
pub mod Router
use tenantflow_api.Prelude.{ℕ, String, Option, [], ◌∷◌, ◌++◌}
use tenantflow_api.Db.Json.{Fields}
use tenantflow_api.Db.Models.{Database, AuditLog}
use tenantflow_api.Db.Constraints.{audit_log_fits}
use tenantflow_api.Db.Session.{Platform, Action, pure, flush, now, new_uuid, ◌>>=◌, ◌>>◌}

unfoldable pub insert_audit_log : AuditLog → Database → Database
insert_audit_log r d = record d { audit_logs = d.audit_logs ++ r ∷ [] }

module _ ⦃p : Platform⦄ where
  unfoldable pub record_audit : ℕ → Option ℕ → String → String → Option ℕ → Fields → Action AuditLog
  unfolding insert_audit_log audit_log_fits
  record_audit organization_id actor_id action entity_type entity_id metadata = do
    created_at ← now
    id ← new_uuid
    let log : AuditLog = record {
      id = id;
      organization_id = organization_id;
      actor_id = actor_id;
      action = action;
      entity_type = entity_type;
      entity_id = entity_id;
      metadata_json = metadata;
      created_at = created_at;
    }
    flush (λ d. audit_log_fits d log) (insert_audit_log log)
    pure log
