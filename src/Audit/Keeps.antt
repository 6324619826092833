-- ===== src/Audit/Keeps.antt =====
-- What `record_audit` keeps: every property that an audit row of the organization keeps.
use tenantflow_api.Prelude.{ℕ, ◌≡◌, refl, String, Option}
use tenantflow_api.Db.Json.{Fields}
use tenantflow_api.Db.Models.{Database, AuditLog}
use tenantflow_api.Db.Session.{Platform}
use tenantflow_api.Db.Session.Triple.{
  Keeps, Triple-bind, Triple-pure, Triple-flush, Keeps-now, Keeps-new_uuid,
}
use tenantflow_api.Audit.{insert_audit_log, record_audit}

pub record_audit-Keeps :
    ⦃p : Platform⦄
    → (P : Database → Type 0) (o : ℕ)
    → ((d : Database) (r : AuditLog) → r.organization_id ≡ o → P d → P (insert_audit_log r d))
    → (actor_id : Option ℕ) (action entity_type : String) (entity_id : Option ℕ) (metadata : Fields)
    → Keeps P (record_audit o actor_id action entity_type entity_id metadata)
unfolding record_audit
record_audit-Keeps P o stable actor_id action entity_type entity_id metadata =
    Triple-bind _ _ (Keeps-now P) λ created_at. Triple-bind _ _ (Keeps-new_uuid P) λ id.
      Triple-bind _ _ (Triple-flush _ _ (λ w h _. stable w.db _ refl h))
        λ _. Triple-pure _ (λ w h. h)
