-- ===== src/Audit/Router.antt =====
-- app/modules/audit/router.py: the list of the audit rows of an organization.
use tenantflow_api.Prelude.{
  ℕ, ◌==◌, String, not, ◌&&◌, Option, List, leb, take, map, select, order_by,
}
use tenantflow_api.Core.Errors.{Error}
use tenantflow_api.Core.Permissions.{audit_read}
use tenantflow_api.Core.Dependencies.{require_permission}
use tenantflow_api.Db.Json.{Fields}
use tenantflow_api.Db.Models.{Database, AuditLog}
use tenantflow_api.Db.Session.{Platform, Action, pure, raise_if, gets, ◌>>=◌, ◌>>◌}

pub record AuditResponse : Type 0 where
  pub id : ℕ
  pub action : String
  pub entity_type : String
  pub entity_id : Option ℕ
  pub actor_id : Option ℕ
  pub metadata : Fields
  pub created_at : ℕ

abbrev pub audit_response : AuditLog → AuditResponse
audit_response row = record {
  id = row.id;
  action = row.action;
  entity_type = row.entity_type;
  entity_id = row.entity_id;
  actor_id = row.actor_id;
  metadata = row.metadata_json;
  created_at = row.created_at;
}

-- the SELECT: of the organization, newest first, as many as the limit
unfoldable pub audit_rows : ℕ → ℕ → Database → List AuditLog
audit_rows organization_id limit d = take limit (
    order_by (λ (a b : AuditLog). leb b.created_at a.created_at)
      (select (λ (x : AuditLog). x.organization_id == organization_id) d.audit_logs))

module _ ⦃p : Platform⦄ where
  unfoldable pub list_audit : ℕ → ℕ → String → Action (List AuditResponse)
  unfolding require_permission audit_rows
  list_audit organization_id limit token = do
    require_permission audit_read organization_id token
    raise_if (not (leb 1 limit && leb limit 200)) Error.validation
    rows ← gets (audit_rows organization_id limit)
    pure (map audit_response rows)
