-- ===== src/Settings/Load.antt =====
-- app/config.py: the fields' defaults and bounds, and the making of the settings.
use ai_serving_backend.Prelude.{
  String, true, false, none, some, List, [], ◌∷◌, ◌++◌, Result, ok, raise,
}
use ai_serving_backend.Prelude.Int.{pos}
use ai_serving_backend.Settings.{
  Settings, Given, Field, or_else, int_at_least, list_field, auth_mode_field, policy_mode_field,
}

abbrev pub report {ℓ} : {A : Type ℓ} → String → Field A → List String
report name none = name ∷ []
report name (some v) = []

abbrev pub concat : List (List String) → List String
concat [] = []
concat (xs ∷ xss) = xs ++ concat xss

-- for each setting that is checked, its name if it is refused
unfoldable pub reports : Given → List (List String)
unfolding int_at_least list_field auth_mode_field policy_mode_field
reports g =
    report "API_KEYS" (list_field ([]) g.api_keys)
    ∷ report "AUTH_MODE" (auth_mode_field g.auth_mode)
    ∷ report "API_KEY_LAST_USED_MIN_INTERVAL_SECONDS"
        (int_at_least 0 60 g.api_key_last_used_min_interval_seconds)
    ∷ report "JWT_ALGORITHMS" (list_field ("RS256" ∷ []) g.jwt_algorithms)
    ∷ report "JWT_GROUP_SCOPE_MAP" (list_field ([]) g.jwt_group_scope_map)
    ∷ report "POLICY_MODE" (policy_mode_field g.policy_mode)
    ∷ report "FORBIDDEN_PATTERNS" (list_field ([]) g.forbidden_patterns)
    ∷ report "PII_TYPES" (list_field ("rrn" ∷ "card" ∷ "phone" ∷ "email" ∷ []) g.pii_types)
    ∷ report "RATE_LIMIT_RPM" (int_at_least 0 60 g.rate_limit_rpm)
    ∷ report "PRE_AUTH_RPM_PER_IP" (int_at_least 0 30 g.pre_auth_rpm_per_ip)
    ∷ report "TRUSTED_PROXIES" (list_field ([]) g.trusted_proxies)
    ∷ report "MAX_REQUEST_BYTES" (int_at_least 1 1048576 g.max_request_bytes)
    ∷ report "MAX_MESSAGES" (int_at_least 1 200 g.max_messages)
    ∷ report "MAX_MESSAGE_CHARS" (int_at_least 1 100000 g.max_message_chars)
    ∷ report "MAX_MODEL_NAME_CHARS" (int_at_least 1 128 g.max_model_name_chars)
    ∷ report "MAX_OUTPUT_TOKENS" (int_at_least 1 4096 g.max_output_tokens)
    ∷ report "STREAM_MAX_DURATION_SECONDS" (int_at_least 1 300 g.stream_max_duration_seconds)
    ∷ report "MAX_CONCURRENT_STREAMS_PER_KEY" (int_at_least 1 4 g.max_concurrent_streams_per_key)
    ∷ report "ALLOWED_HOSTS" (list_field ("*" ∷ []) g.allowed_hosts)
    ∷ report "OPENAI_MODELS" (list_field ("gpt-4o" ∷ "gpt-4o-mini" ∷ []) g.openai_models)
    ∷ report "ANTHROPIC_MODELS"
        (list_field ("claude-sonnet-4-6" ∷ "claude-3-5-haiku-latest" ∷ []) g.anthropic_models)
    ∷ []

-- the names of the settings that are refused
unfoldable pub errors_of : Given → List String
unfolding reports
errors_of g = concat (reports g)

-- the settings, for values that are not refused
unfoldable pub settings_of : Given → Settings
unfolding int_at_least list_field auth_mode_field policy_mode_field
settings_of g = record {
  api_keys = or_else (list_field ([]) g.api_keys) [];
  auth_mode = or_else (auth_mode_field g.auth_mode) [];
  openai_api_key = g.openai_api_key;
  anthropic_api_key = g.anthropic_api_key;
  api_key_last_used_min_interval_seconds =
      or_else (int_at_least 0 60 g.api_key_last_used_min_interval_seconds) 0;
  database_url = or_else g.database_url "sqlite+aiosqlite:///./data/app.db";
  redis_url = g.redis_url;
  audit_enabled = or_else g.audit_enabled true;
  audit_sync = or_else g.audit_sync false;
  audit_fallback_path = or_else g.audit_fallback_path "./data/audit_fallback.jsonl";
  audit_store_messages = or_else g.audit_store_messages false;
  jwt_issuer = g.jwt_issuer;
  jwt_audience = g.jwt_audience;
  jwt_jwks_url = g.jwt_jwks_url;
  jwt_algorithms = or_else (list_field ("RS256" ∷ []) g.jwt_algorithms) [];
  jwt_scope_claim = or_else g.jwt_scope_claim "groups";
  jwt_group_scope_map = or_else (list_field ([]) g.jwt_group_scope_map) [];
  jwt_org_claim = or_else g.jwt_org_claim "org_id";
  policy_mode = or_else (policy_mode_field g.policy_mode) "";
  forbidden_patterns = or_else (list_field ([]) g.forbidden_patterns) [];
  pii_masking_enabled = or_else g.pii_masking_enabled true;
  pii_types = or_else (list_field ("rrn" ∷ "card" ∷ "phone" ∷ "email" ∷ []) g.pii_types) [];
  rate_limit_rpm = or_else (int_at_least 0 60 g.rate_limit_rpm) 0;
  rate_limit_backend = or_else g.rate_limit_backend "memory";
  rate_limit_strict = or_else g.rate_limit_strict false;
  pre_auth_rpm_per_ip = or_else (int_at_least 0 30 g.pre_auth_rpm_per_ip) 0;
  trusted_proxies = or_else (list_field ([]) g.trusted_proxies) [];
  trust_forwarded_for = or_else g.trust_forwarded_for false;
  log_level = or_else g.log_level "INFO";
  default_max_tokens = or_else g.default_max_tokens (pos 1024);
  max_request_bytes = or_else (int_at_least 1 1048576 g.max_request_bytes) 0;
  max_messages = or_else (int_at_least 1 200 g.max_messages) 0;
  max_message_chars = or_else (int_at_least 1 100000 g.max_message_chars) 0;
  max_model_name_chars = or_else (int_at_least 1 128 g.max_model_name_chars) 0;
  max_output_tokens = or_else (int_at_least 1 4096 g.max_output_tokens) 0;
  stream_max_duration_seconds = or_else (int_at_least 1 300 g.stream_max_duration_seconds) 0;
  max_concurrent_streams_per_key = or_else (int_at_least 1 4 g.max_concurrent_streams_per_key) 0;
  docs_enabled = or_else g.docs_enabled true;
  allowed_hosts = or_else (list_field ("*" ∷ []) g.allowed_hosts) [];
  openai_models = or_else (list_field ("gpt-4o" ∷ "gpt-4o-mini" ∷ []) g.openai_models) [];
  anthropic_models =
      or_else (list_field ("claude-sonnet-4-6" ∷ "claude-3-5-haiku-latest" ∷ []) g.anthropic_models)
        [];
}

abbrev pub accept_unless : List String → Settings → Result (List String) Settings
accept_unless [] s = ok s
accept_unless (e ∷ es) s = raise (e ∷ es)

-- Settings(), for what pydantic-settings has read
unfoldable pub load : Given → Result (List String) Settings
unfolding errors_of settings_of
load g = accept_unless (errors_of g) (settings_of g)
