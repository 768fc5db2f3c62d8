-- ===== src/Admin/Tests.antt =====
-- An administrator of one organization among two.
use ai_serving_backend.Prelude.{
  ◌+◌, String, ◌≡◌, refl, true, false, none, some, [], ◌∷◌, length, ok,
}
use ai_serving_backend.Prelude.Text.{strip, join, str_take, split_on, csv_items}
use ai_serving_backend.Auth.{ApiKeyPrincipal, is_super_admin, principal_of_key}
use ai_serving_backend.Db.{AuditLog, Database, ApiKey, empty, find_by}
use ai_serving_backend.Admin.{
  key, get_usage, AuditQuery, list_audit_logs, require_sessionmaker, require_super_admin,
}
use ai_serving_backend.Admin.Isolation.{get_usage-isolated, list_audit_logs-isolated}
use ai_serving_backend.Admin.Keys.Scopes.{create_api_key-never_super}
use ai_serving_backend.Admin.Keys.{
  normalize_scopes, ApiKeyCreateRequest, create_api_key, revoked, list_api_keys, granted,
  listed_org,
}
use ai_serving_backend.Admin.Keys.Grants.{Confined, create_api_key-Confined}
use ai_serving_backend.Admin.Replay.{
  Libraries, commits, breaks, cancels, Loaded, Files, taken, replay_audit_fallback, nonblank,
  replay_lines, audit_fields_from_json,
}
use ai_serving_backend.Admin.Replay.Lines.{replay_audit_fallback-loses_none}

abbrev admin : ApiKeyPrincipal
admin = record { api_key_hash = "h"; api_key_id = none; org_id = some "o1"; scopes = "admin" ∷ [] }

abbrev root : ApiKeyPrincipal
root = record { api_key_hash = "r"; api_key_id = none; org_id = none; scopes = "super_admin" ∷ [] }

is_plain : is_super_admin admin ≡ false
unfolding is_super_admin
is_plain = refl

is_root : is_super_admin root ≡ true
unfolding is_super_admin
is_root = refl

abbrev row : String → String → AuditLog
row id org_id = record {
  id = id;
  request_id = id;
  ts = 50;
  principal_hash = none;
  org_id = some org_id;
  api_key_id = none;
  provider = none;
  model = none;
  status_code = 200;
  error_type = none;
  prompt_tokens = 1;
  completion_tokens = 2;
  total_tokens = 3;
  cost_usd = 0;
  latency_ms = 1;
  stream = false;
}

abbrev alone : Database
alone = record empty { audit_logs = row "1" "o1" ∷ [] }

abbrev with_others : Database
with_others = record empty { audit_logs = row "2" "o2" ∷ row "1" "o1" ∷ row "3" "o2" ∷ [] }

get_usage-isolated_example :
    get_usage (some 10) (some 90) key admin 100 (some alone)
    ≡ get_usage (some 10) (some 90) key admin 100 (some with_others)
get_usage-isolated_example =
    get_usage-isolated (some 10) (some 90) key admin 100 "o1" alone with_others is_plain refl refl

abbrev first_page : AuditQuery
first_page = record {
  limit = 50;
  offset = 0;
  since = none;
  until = none;
  model = none;
  api_key_id = none;
}

list_audit_logs-isolated_example :
    list_audit_logs first_page admin (some alone)
    ≡ list_audit_logs first_page admin (some with_others)
list_audit_logs-isolated_example =
    list_audit_logs-isolated first_page admin "o1" alone with_others is_plain refl refl refl

abbrev hash : String → String
hash t = t

abbrev wanted : ApiKeyCreateRequest
wanted = record { name = "ci"; scopes = "chat" ∷ "super_admin" ∷ []; org_id = "o1" }

abbrev orgs : Database
orgs = record empty { organizations = record { id = "o1"; name = "one"; created_at = 1 } ∷ [] }

abbrev made : ApiKey
made = record {
  id = "k1";
  org_id = "o1";
  prefix = "sk-1";
  key_hash = "sk-1";
  name = "ci";
  scopes = "chat";
  created_at = 7;
  last_used_at = none;
  revoked_at = none;
}

abbrev with_key : Database
with_key = record orgs { api_keys = made ∷ [] }

key_made : create_api_key hash "sk-1" "k1" 7 wanted admin (some orgs) ≡ (ok made, some with_key)
unfolding create_api_key require_sessionmaker granted is_super_admin find_by join str_take
key_made = refl

create_api_key-Confined_example : Confined admin wanted "sk-1" orgs with_key made
create_api_key-Confined_example =
    create_api_key-Confined hash "sk-1" "k1" 7 wanted admin orgs with_key made is_plain key_made

abbrev without_key : Database
without_key = record orgs { api_keys = revoked 9 made ∷ [] }

keys_listed : list_api_keys (some "o2") false admin (some with_key) ≡ ok (made ∷ [])
unfolding list_api_keys require_sessionmaker listed_org is_super_admin
keys_listed = refl

-- a line is an object without entries, unless it is "bad"
abbrev libraries : Libraries
libraries = record {
  loads = λ t. some (Loaded.object []);
  decimal_of = λ v. none;
  fromisoformat = λ t. none;
  audit_log = λ fields. some (row "9" "o1");
}

abbrev files : Files
files = record { fallback = some ("{}" ∷ " " ∷ "{}" ∷ "{}" ∷ []); quarantined = []; rows = [] }

replay_audit_fallback-loses_none_example :
    let f = (replay_audit_fallback libraries (commits ∷ cancels ∷ []) taken true root files).1 in
    (length f.rows + length f.quarantined
      ≡ 0 + 0 + length (nonblank libraries ("{}" ∷ " " ∷ "{}" ∷ "{}" ∷ [])))
    × (f.fallback ≡ none)
replay_audit_fallback-loses_none_example =
    replay_audit_fallback-loses_none libraries (commits ∷ cancels ∷ []) root
      ("{}" ∷ " " ∷ "{}" ∷ "{}" ∷ []) files is_root refl

replay_answers :
    (replay_audit_fallback libraries (commits ∷ breaks ∷ []) taken true root files).0
    ≡ ok (record { replayed = 2; failed = 1 })
unfolding replay_audit_fallback require_super_admin is_super_admin replay_lines strip
    audit_fields_from_json
replay_answers = refl

scopes_valid : normalize_scopes ("chat, super_admin" ∷ []) ≡ ok wanted.scopes
unfolding normalize_scopes strip split_on csv_items
scopes_valid = refl

create_api_key-never_super_example : is_super_admin (principal_of_key "sk-1" made) ≡ false
create_api_key-never_super_example =
    create_api_key-never_super hash "sk-1" "k1" 7 ("chat, super_admin" ∷ []) wanted admin orgs
      with_key made is_plain scopes_valid key_made
