-- ===== src/Admin/Isolation.antt =====
-- app/routers/admin.py: the reports, and the organization that a principal is confined to.
use ai_serving_backend.Prelude.{ℕ, String, ◌≡◌, refl, false, Option, some, filter, ok}
use ai_serving_backend.Auth.{ApiKeyPrincipal, is_super_admin}
use ai_serving_backend.Db.{Database}
use ai_serving_backend.Admin.{
  principal_org_id, scope_of, in_scope, GroupBy, get_usage, require_sessionmaker, AuditQuery,
  list_audit_logs, check_key,
}

scope_of-org :
    (p : ApiKeyPrincipal) (org_id : String)
    → is_super_admin p ≡ false
    → p.org_id ≡ some org_id
    → scope_of p ≡ ok (some org_id)
unfolding scope_of principal_org_id
scope_of-org p org_id plain e = rw (scope_of, plain, e) refl

-- Two databases that have the same audit rows of an organization, in the same order.
abbrev pub AgreeOn : String → Database → Database → Type 0
AgreeOn org_id a b =
    filter (in_scope (some org_id)) a.audit_logs ≡ filter (in_scope (some org_id)) b.audit_logs

-- For an administrator who is no super admin, the usage report, its errors included, is the same for
-- any two databases that agree on the audit rows of the administrator's organization.
pub get_usage-isolated :
    (since until : Option ℕ) (by : GroupBy) (p : ApiKeyPrincipal) (now : ℕ) (org_id : String)
    (a b : Database)
    → is_super_admin p ≡ false
    → p.org_id ≡ some org_id
    → AgreeOn org_id a b
    → get_usage since until by p now (some a) ≡ get_usage since until by p now (some b)
unfolding get_usage require_sessionmaker
get_usage-isolated since until by p now org_id a b plain e same =
    rw (get_usage, scope_of-org p org_id plain e, same) refl

-- The audit list of such an administrator, its errors and its next offset included, is the same for
-- any two databases that agree on the audit rows of the administrator's organization and on the keys.
pub list_audit_logs-isolated :
    (q : AuditQuery) (p : ApiKeyPrincipal) (org_id : String) (a b : Database)
    → is_super_admin p ≡ false
    → p.org_id ≡ some org_id
    → AgreeOn org_id a b
    → a.api_keys ≡ b.api_keys
    → list_audit_logs q p (some a) ≡ list_audit_logs q p (some b)
unfolding list_audit_logs require_sessionmaker check_key
list_audit_logs-isolated q p org_id a b plain e same keys =
    rw (list_audit_logs, scope_of-org p org_id plain e, same, keys) refl
