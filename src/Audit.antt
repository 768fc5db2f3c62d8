-- ===== src/Audit.antt =====
-- app/observability.py and app/audit_fallback.py: the audit row of a chat request, and when it is
-- written. The fallback file is the sequence of its lines; a line is the fields that it holds. The
-- insert of a request runs when it is scheduled (`audit_sync`), or as a task later; Tasks has both.
pub mod Tasks
pub mod Writing
pub mod Streams
mod Tests
use ai_serving_backend.Prelude.{
  ℕ, zero, suc, ◌+◌, String, Bool, true, false, not, ◌&&◌, ◌||◌, Option, none, some, List, [], ◌∷◌,
  ◌++◌, map, str_eq, ◌==◌, if◌then◌else◌,
}
use ai_serving_backend.Prelude.Dict.{Dict}
use ai_serving_backend.Request.{RequestState, NormalizedUsage, PolicyEvent, StoredMessage}
use ai_serving_backend.Db.{AuditLog, PolicyEventRow, AuditMessage, Database}
use ai_serving_backend.Pricing.{calculate_cost}

pub record AuditSettings : Type 0 where
  pub audit_enabled : Bool
  pub audit_sync : Bool
  pub audit_store_messages : Bool

abbrev pub audit_path : String
audit_path = "/v1/chat/completions"

-- `fields`: an audit row without the id and the time that the insert gives it
pub record AuditFields : Type 0 where
  pub request_id : String
  pub principal_hash : Option String
  pub org_id : Option String
  pub api_key_id : Option String
  pub provider : Option String
  pub model : Option String
  pub status_code : ℕ
  pub error_type : Option String
  pub prompt_tokens : ℕ
  pub completion_tokens : ℕ
  pub total_tokens : ℕ
  pub cost_usd : ℕ
  pub latency_ms : ℕ
  pub stream : Bool

-- _usage_int, for each of the three keys
unfoldable pub usage_int : Option NormalizedUsage → (NormalizedUsage → ℕ) → ℕ
usage_int none key = 0
usage_int (some usage) key = key usage

abbrev pub or_else {ℓ} : {A : Type ℓ} → Option A → A → A
or_else none a = a
or_else (some b) a = b

-- `uuid` is the identifier for a request that has none
unfoldable pub fields_of : RequestState → String → ℕ → ℕ → AuditFields
unfolding usage_int calculate_cost
fields_of s uuid status_code latency_ms =
    let prompt_tokens = usage_int s.token_usage (λ u. u.prompt_tokens) in
    let completion_tokens = usage_int s.token_usage (λ u. u.completion_tokens) in
    let total = usage_int s.token_usage (λ u. u.total_tokens) in
    record {
      request_id = or_else s.request_id uuid;
      principal_hash = s.principal_hash;
      org_id = s.org_id;
      api_key_id = s.api_key_id;
      provider = s.provider;
      model = s.model;
      status_code = status_code;
      error_type = s.error_type;
      prompt_tokens = prompt_tokens;
      completion_tokens = completion_tokens;
      total_tokens = if total == 0 then prompt_tokens + completion_tokens else total;
      cost_usd = calculate_cost s.model prompt_tokens completion_tokens;
      latency_ms = latency_ms;
      stream = or_else s.stream false;
    }

abbrev or_medium : String → String
or_medium severity = if str_eq severity "" then "medium" else severity

unfoldable pub event_row : AuditFields → PolicyEvent → PolicyEventRow
event_row f e = record {
  request_id = f.request_id;
  principal_hash = f.principal_hash;
  org_id = f.org_id;
  api_key_id = f.api_key_id;
  event_type = e.event_type;
  action = e.action;
  rule_id = e.rule_id;
  count = e.count;
  severity = or_medium e.severity;
  stream = f.stream;
}

unfoldable pub pii_row : AuditFields → String × ℕ → PolicyEventRow
pii_row f (pii_type, count) = record {
  request_id = f.request_id;
  principal_hash = f.principal_hash;
  org_id = f.org_id;
  api_key_id = f.api_key_id;
  event_type = "pii_mask";
  action = "mask";
  rule_id = pii_type;
  count = count;
  severity = "info";
  stream = f.stream;
}

unfoldable pub policy_rows : AuditFields → RequestState → List PolicyEventRow
unfolding event_row pii_row
policy_rows f s =
    map (event_row f) (or_else s.policy_events []) ++ map (pii_row f) (or_else s.pii_masked [])

abbrev message_row : AuditFields → StoredMessage → AuditMessage
message_row f m = record {
  request_id = f.request_id;
  seq = m.seq;
  role = m.role;
  content = m.content;
}

unfoldable pub message_rows : AuditSettings → AuditFields → RequestState → List AuditMessage
message_rows settings f s =
    if settings.audit_store_messages then map (message_row f) (or_else s.stored_messages []) else []

unfoldable pub audit_row : String → ℕ → AuditFields → AuditLog
audit_row id ts f = record {
  id = id;
  request_id = f.request_id;
  ts = ts;
  principal_hash = f.principal_hash;
  org_id = f.org_id;
  api_key_id = f.api_key_id;
  provider = f.provider;
  model = f.model;
  status_code = f.status_code;
  error_type = f.error_type;
  prompt_tokens = f.prompt_tokens;
  completion_tokens = f.completion_tokens;
  total_tokens = f.total_tokens;
  cost_usd = f.cost_usd;
  latency_ms = f.latency_ms;
  stream = f.stream;
}
