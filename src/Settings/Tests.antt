-- ===== src/Settings/Tests.antt =====
-- Settings that are not given, and a list in the environment.
use ai_serving_backend.Prelude.{List, map, All, ◌≡◌, refl, none, some, [], ◌∷◌, ok}
use ai_serving_backend.Prelude.Int.{pos}
use ai_serving_backend.Prelude.Text.{join, strip}
use ai_serving_backend.Prelude.Text.Strip.{Lacks}
use ai_serving_backend.Settings.{
  Given, text, parse_csv, list_field, int_at_least, auth_mode_field, policy_mode_field,
}
use ai_serving_backend.Settings.Load.{load, settings_of}
use ai_serving_backend.Settings.Bounds.{IsLoaded, load-IsLoaded}
use ai_serving_backend.Settings.Csv.{parse_csv-join}
use ai_serving_backend.Prelude.Text.Csv.{Part, padded, blank, part_text, IsPart}
use ai_serving_backend.Prelude.Text.Padding.{IsBlank}

-- " gpt 4o , ,,o1"
abbrev written : List Part
written = padded " " "gpt 4o" " " ∷ blank " " ∷ blank "" ∷ padded "" "o1" "" ∷ []

written-AreParts : All IsPart written
unfolding strip Lacks IsBlank
written-AreParts = (
  ((refl, tt), ((refl, (refl, (refl, (refl, (refl, (refl, tt)))))), refl), refl, (refl, tt)),
  ((refl, tt), (tt, ((tt, ((refl, (refl, tt)), refl), refl, tt), tt))),
)

parse_csv-join_example :
    parse_csv (text (join "," (map part_text written))) ≡ some ("gpt 4o" ∷ "o1" ∷ [])
parse_csv-join_example = parse_csv-join written written-AreParts

-- two modes and a smaller limit on streams; all else is left to the defaults
abbrev pub some_given : Given
some_given = record {
  api_keys = none;
  auth_mode = some (text "api_key, jwt");
  openai_api_key = none;
  anthropic_api_key = none;
  api_key_last_used_min_interval_seconds = none;
  database_url = none;
  redis_url = none;
  audit_enabled = none;
  audit_sync = none;
  audit_fallback_path = none;
  audit_store_messages = none;
  jwt_issuer = none;
  jwt_audience = none;
  jwt_jwks_url = none;
  jwt_algorithms = none;
  jwt_scope_claim = none;
  jwt_group_scope_map = none;
  jwt_org_claim = none;
  policy_mode = none;
  forbidden_patterns = none;
  pii_masking_enabled = none;
  pii_types = none;
  rate_limit_rpm = none;
  rate_limit_backend = none;
  rate_limit_strict = none;
  pre_auth_rpm_per_ip = none;
  trusted_proxies = none;
  trust_forwarded_for = none;
  log_level = none;
  default_max_tokens = none;
  max_request_bytes = none;
  max_messages = none;
  max_message_chars = none;
  max_model_name_chars = none;
  max_output_tokens = none;
  stream_max_duration_seconds = none;
  max_concurrent_streams_per_key = some (pos 2);
  docs_enabled = none;
  allowed_hosts = none;
  openai_models = none;
  anthropic_models = none;
}

accepted : load some_given ≡ ok (settings_of some_given)
unfolding load list_field int_at_least auth_mode_field policy_mode_field
accepted = refl

load-IsLoaded_example : IsLoaded some_given (settings_of some_given)
load-IsLoaded_example = load-IsLoaded some_given (settings_of some_given) accepted
