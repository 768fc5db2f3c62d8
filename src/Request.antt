-- ===== src/Request.antt =====
-- What the handlers keep on `request.state` (app/auth.py, app/routers/chat.py, app/errors.py and
-- app/observability.py write and read it). An attribute that is not set is `none`.
use ai_serving_backend.Prelude.{ℕ, String, Bool, Option, none, List}
use ai_serving_backend.Prelude.Dict.{Dict}

-- app/normalized.py: NormalizedUsage
pub record NormalizedUsage : Type 0 where
  pub prompt_tokens : ℕ
  pub completion_tokens : ℕ
  pub total_tokens : ℕ

-- app/normalized.py: NormalizedMessage
pub record NormalizedMessage : Type 0 where
  pub role : String
  pub content : String

-- an entry of request.state.policy_events
pub record PolicyEvent : Type 0 where
  pub event_type : String
  pub action : String
  pub rule_id : String
  pub count : ℕ
  pub severity : String

-- an entry of request.state.stored_messages
pub record StoredMessage : Type 0 where
  pub seq : ℕ
  pub role : String
  pub content : String

pub record RequestState : Type 0 where
  pub request_id : Option String
  pub principal_hash : Option String
  pub api_key_id : Option String
  pub org_id : Option String
  pub scopes : Option (List String)
  pub model : Option String
  pub stream : Option Bool
  pub provider : Option String
  pub error_type : Option String
  pub audit_status_code : Option ℕ
  pub token_usage : Option NormalizedUsage
  pub policy_events : Option (List PolicyEvent)
  pub pii_masked : Option (Dict ℕ)
  pub stored_messages : Option (List StoredMessage)

-- a request as it comes in
abbrev pub fresh : RequestState
fresh = record {
  request_id = none;
  principal_hash = none;
  api_key_id = none;
  org_id = none;
  scopes = none;
  model = none;
  stream = none;
  provider = none;
  error_type = none;
  audit_status_code = none;
  token_usage = none;
  policy_events = none;
  pii_masked = none;
  stored_messages = none;
}
