-- ===== src/Settings.antt =====
-- app/config.py: the settings. Reading the environment and the type of each value are
-- pydantic-settings' part: `Given` is what they leave, with none for a setting that is not given, whose
-- default is not validated. `str` of an item that is no text is taken before.
pub mod Load
pub mod Bounds
pub mod Csv
pub mod Tests
use Prim.Native.String
use ai_serving_backend.Prelude.{
  ℕ, zero, suc, String, Bool, true, false, not, ◌&&◌, ◌||◌, Option, none, some, List, [], ◌∷◌, ◌++◌,
  map, filter, str_eq, leb, if◌then◌else◌, is_empty, all, Result, ok, raise,
}
use ai_serving_backend.Prelude.Int.{ℤ, pos, negsuc}
use ai_serving_backend.Prelude.Text.{strip, csv_items}

-- a value for a list: None, a text, a list, tuple or set of items, or anything else
pub data ListValue : Type 0 where
  null : ListValue
  text : String → ListValue
  items : List String → ListValue
  other_value : ListValue

-- _parse_csv; none is a value that is left as it is, and is no list
unfoldable pub parse_csv : ListValue → Option (List String)
unfolding csv_items strip
parse_csv null = some []
parse_csv (text t) = some (csv_items t)
parse_csv (items is) = some (filter (λ i. not (str_eq i "")) (map strip is))
parse_csv other_value = none

-- Settings
pub record Settings : Type 0 where
  pub api_keys : List String
  pub auth_mode : List String
  pub openai_api_key : Option String
  pub anthropic_api_key : Option String
  pub api_key_last_used_min_interval_seconds : ℕ
  pub database_url : String
  pub redis_url : Option String
  pub audit_enabled : Bool
  pub audit_sync : Bool
  pub audit_fallback_path : String
  pub audit_store_messages : Bool
  pub jwt_issuer : Option String
  pub jwt_audience : Option String
  pub jwt_jwks_url : Option String
  pub jwt_algorithms : List String
  pub jwt_scope_claim : String
  pub jwt_group_scope_map : List String
  pub jwt_org_claim : String
  pub policy_mode : String
  pub forbidden_patterns : List String
  pub pii_masking_enabled : Bool
  pub pii_types : List String
  pub rate_limit_rpm : ℕ
  pub rate_limit_backend : String
  pub rate_limit_strict : Bool
  pub pre_auth_rpm_per_ip : ℕ
  pub trusted_proxies : List String
  pub trust_forwarded_for : Bool
  pub log_level : String
  pub default_max_tokens : ℤ
  pub max_request_bytes : ℕ
  pub max_messages : ℕ
  pub max_message_chars : ℕ
  pub max_model_name_chars : ℕ
  pub max_output_tokens : ℕ
  pub stream_max_duration_seconds : ℕ
  pub max_concurrent_streams_per_key : ℕ
  pub docs_enabled : Bool
  pub allowed_hosts : List String
  pub openai_models : List String
  pub anthropic_models : List String

pub record Given : Type 0 where
  pub api_keys : Option ListValue
  pub auth_mode : Option ListValue
  pub openai_api_key : Option String
  pub anthropic_api_key : Option String
  pub api_key_last_used_min_interval_seconds : Option ℤ
  pub database_url : Option String
  pub redis_url : Option String
  pub audit_enabled : Option Bool
  pub audit_sync : Option Bool
  pub audit_fallback_path : Option String
  pub audit_store_messages : Option Bool
  pub jwt_issuer : Option String
  pub jwt_audience : Option String
  pub jwt_jwks_url : Option String
  pub jwt_algorithms : Option ListValue
  pub jwt_scope_claim : Option String
  pub jwt_group_scope_map : Option ListValue
  pub jwt_org_claim : Option String
  pub policy_mode : Option String
  pub forbidden_patterns : Option ListValue
  pub pii_masking_enabled : Option Bool
  pub pii_types : Option ListValue
  pub rate_limit_rpm : Option ℤ
  pub rate_limit_backend : Option String
  pub rate_limit_strict : Option Bool
  pub pre_auth_rpm_per_ip : Option ℤ
  pub trusted_proxies : Option ListValue
  pub trust_forwarded_for : Option Bool
  pub log_level : Option String
  pub default_max_tokens : Option ℤ
  pub max_request_bytes : Option ℤ
  pub max_messages : Option ℤ
  pub max_message_chars : Option ℤ
  pub max_model_name_chars : Option ℤ
  pub max_output_tokens : Option ℤ
  pub stream_max_duration_seconds : Option ℤ
  pub max_concurrent_streams_per_key : Option ℤ
  pub docs_enabled : Option Bool
  pub allowed_hosts : Option ListValue
  pub openai_models : Option ListValue
  pub anthropic_models : Option ListValue

-- A field's value, or that the field has an error.
abbrev pub Field {ℓ} : Type ℓ → Type ℓ
Field A = Option A

abbrev pub or_else {ℓ} : {A : Type ℓ} → Option A → A → A
or_else none default = default
or_else (some v) default = v

-- Field(default=..., ge=least) of an int
unfoldable pub int_at_least : ℕ → ℕ → Option ℤ → Field ℕ
int_at_least least default none = some default
int_at_least least default (some (pos n)) = if leb least n then some n else none
int_at_least least default (some (negsuc n)) = none

-- parse_csv_lists
unfoldable pub list_field : List String → Option ListValue → Field (List String)
unfolding parse_csv
list_field default none = some default
list_field default (some v) = parse_csv v

abbrev pub allowed_mode : String → Bool
allowed_mode m = str_eq m "api_key" || str_eq m "jwt"

-- parse_csv_lists, then validate_auth_mode
unfoldable pub auth_mode_field : Option ListValue → Field (List String)
unfolding list_field
auth_mode_field none = some ("api_key" ∷ [])
auth_mode_field (some v) = elim (list_field [] (some v)) [
  | none ↦ none
  | some modes ↦ if all allowed_mode modes then some modes else none
]

abbrev pub allowed_policy : String → Bool
allowed_policy m = str_eq m "block" || str_eq m "log_only" || str_eq m "disabled"

-- validate_policy_mode
unfoldable pub policy_mode_field : Option String → Field String
policy_mode_field none = some "log_only"
policy_mode_field (some m) = if allowed_policy m then some m else none

-- discard_raw_api_keys
unfoldable pub discard_raw_api_keys : Settings → Settings
discard_raw_api_keys s = record s { api_keys = [] }
