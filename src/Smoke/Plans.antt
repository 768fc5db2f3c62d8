-- ===== src/Smoke/Plans.antt =====
-- scripts/smoke_provider.py: the arguments and the plans. `argparse` and the reading of the settings
-- are arguments: the parsed options, and the two keys.
use Prim.Native.String
use ai_serving_backend.Prelude.{
  ℕ, String, Bool, true, false, not, Option, none, some, List, [], ◌∷◌, map, str_eq, ltb,
  if◌then◌else◌,
}
use ai_serving_backend.Prelude.Int.{ℤ, pos, negsuc, str_int}
use ai_serving_backend.Prelude.Text.{strip, str_nat}

abbrev pub max_tokens_cap : ℕ
max_tokens_cap = 64

-- the choices of --provider
pub data ProviderChoice : Type 0 where
  openai anthropic all : ProviderChoice

pub record Args : Type 0 where
  pub run : Bool
  pub provider : ProviderChoice
  pub max_tokens : ℤ
  pub openai_model : String
  pub anthropic_model : String
  pub prompt : String

pub record ProviderPlan : Type 0 where
  pub provider : String
  pub model : String
  pub has_key : Bool
  pub max_tokens : ℕ

unfoldable pub selected_providers : ProviderChoice → List String
selected_providers openai = "openai" ∷ []
selected_providers anthropic = "anthropic" ∷ []
selected_providers all = "openai" ∷ "anthropic" ∷ []

abbrev too_many : ℤ → String
too_many value = String.◌++◌ "WARNING: --max-tokens " (
    String.◌++◌ (str_int value)
      (String.◌++◌ " exceeds the safety cap; using " (String.◌++◌ (str_nat max_tokens_cap) ".")))

abbrev too_few : String
too_few = "WARNING: --max-tokens must be at least 1; using 1."

unfoldable pub clamp_max_tokens : ℤ → ℕ × Option String
clamp_max_tokens (negsuc n) = (1, some too_few)
clamp_max_tokens (pos n) =
    if ltb max_tokens_cap n
    then (max_tokens_cap, some (too_many (pos n)))
    else if ltb n 1
    then (1, some too_few)
    else (n, none)

-- the two keys in the settings
pub record KeySettings : Type 0 where
  pub openai_api_key : Option String
  pub anthropic_api_key : Option String

-- bool((key or "").strip())
unfoldable pub key_present : Option String → Bool
unfolding strip
key_present none = false
key_present (some k) = not (str_eq (strip k) "")

-- the dictionary that load_key_presence returns, as a function of its two keys
unfoldable pub load_key_presence : KeySettings → String → Bool
unfolding key_present
load_key_presence s provider =
    if str_eq provider "openai"
    then key_present s.openai_api_key
    else key_present s.anthropic_api_key

abbrev model_of : Args → String → String
model_of args provider =
    if str_eq provider "openai" then args.openai_model else args.anthropic_model

unfoldable pub build_plans : Args → KeySettings → ℕ → List ProviderPlan
unfolding load_key_presence selected_providers
build_plans args s max_tokens =
    map
      (λ provider. record {
        provider = provider;
        model = model_of args provider;
        has_key = load_key_presence s provider;
        max_tokens = max_tokens;
      })
      (selected_providers args.provider)

-- what the script sets of the application's settings
pub record SmokeSettings : Type 0 where
  pub api_keys : List String
  pub audit_sync : Bool
  pub database_url : String
  pub openai_models : List String
  pub anthropic_models : List String
  pub max_output_tokens : ℕ

abbrev pub auth_token : String
auth_token = "smoke-local-key"

unfoldable pub build_smoke_settings : Args → String → SmokeSettings
build_smoke_settings args database_url = record {
  api_keys = auth_token ∷ [];
  audit_sync = true;
  database_url = database_url;
  openai_models = args.openai_model ∷ [];
  anthropic_models = args.anthropic_model ∷ [];
  max_output_tokens = max_tokens_cap;
}
