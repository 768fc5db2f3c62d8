-- ===== src/Application.antt =====
-- app/main.py, app/auth_jwt.py, app/db/engine.py, app/routers/health.py and app/routers/models.py: the
-- application that is made from the settings, and how it is shut down. What FastAPI, Starlette,
-- SQLAlchemy and PyJWT make of it is outside: the definitions say what they are given.
pub mod Limits
pub mod Shutdown
pub mod Engine
mod Tests
use ai_serving_backend.Prelude.{
  ℕ, String, Bool, true, false, not, ◌||◌, Option, none, some, List, [], ◌∷◌, str_eq, if◌then◌else◌,
  Result, ok, raise, ◌>>=◌,
}
use ai_serving_backend.Errors.{Exception}
use ai_serving_backend.Auth.{ApiKeyPrincipal, AuthSettings, contains, from_plaintext}
use ai_serving_backend.Settings.{Settings, discard_raw_api_keys}
use ai_serving_backend.Registry.{ModelSettings, ModelInfo, list_models}
use ai_serving_backend.RateLimit.Enforce.{
  LimitSettings, AnyBackend, Backend, build_rate_limit_backend, enforce_rate_limit,
}
use ai_serving_backend.Streaming.{StreamConcurrencyLimiter, init}

-- JWTValidator, with the URL of its key set
pub record JwtValidator : Type 0 where
  pub issuer : Option String
  pub audience : Option String
  pub algorithms : List String
  pub jwks_url : String

abbrev has_url : List String → Option String → Option String
has_url modes none = none
has_url modes (some url) = if not (contains "jwt" modes) || str_eq url "" then none else some url

-- build_jwt_validator
unfoldable pub build_jwt_validator : Settings → Option JwtValidator
unfolding contains
build_jwt_validator s = elim (has_url s.auth_mode s.jwt_jwks_url) [
  | none ↦ none
  | some url ↦ some (record {
    issuer = s.jwt_issuer;
    audience = s.jwt_audience;
    algorithms = s.jwt_algorithms;
    jwks_url = url;
  })
]

-- the middleware, from the one that sees a request first to the last; `add_middleware` puts the new
-- one outside of those before
pub data Layer : Type 0 where
  request_id : Layer
  pre_auth_rate_limit : Layer
  body_size_limit : ℕ → Layer
  trusted_host : List String → Layer

abbrev add_middleware : Layer → List Layer → List Layer
add_middleware layer layers = layer ∷ layers

-- the application and its state
pub record App : Type 0 where
  pub settings : Settings
  pub key_hashes : List String
  pub last_used_min_interval : ℕ
  pub jwt_validator : Option JwtValidator
  pub rate_limiter : AnyBackend
  pub pre_auth_rate_limiter : AnyBackend
  pub stream_limiter : StreamConcurrencyLimiter
  pub models : ModelSettings
  pub docs_url : Option String
  pub openapi_url : Option String
  pub middleware : List Layer

abbrev pub limit_settings : Settings → LimitSettings
limit_settings s = record {
  rate_limit_rpm = s.rate_limit_rpm;
  rate_limit_backend = s.rate_limit_backend;
  rate_limit_strict = s.rate_limit_strict;
  redis_url = s.redis_url;
}

-- the FastAPI application and its state, from the settings without their keys
unfoldable pub assemble : Settings → List String → AnyBackend → AnyBackend → App
unfolding build_jwt_validator init
assemble s key_hashes rate_limiter pre_auth_rate_limiter = record {
  settings = s;
  key_hashes = key_hashes;
  last_used_min_interval = s.api_key_last_used_min_interval_seconds;
  jwt_validator = build_jwt_validator s;
  rate_limiter = rate_limiter;
  pre_auth_rate_limiter = pre_auth_rate_limiter;
  stream_limiter = init s.max_concurrent_streams_per_key;
  models = record { openai_models = s.openai_models; anthropic_models = s.anthropic_models };
  docs_url = if s.docs_enabled then some "/docs" else none;
  openapi_url = if s.docs_enabled then some "/openapi.json" else none;
  middleware = add_middleware request_id (
      add_middleware pre_auth_rate_limit (
        add_middleware (body_size_limit s.max_request_bytes)
          (add_middleware (trusted_host s.allowed_hosts) [])));
}

module _ (sha256 : String → String) (hz : ℕ) where
  -- create_app; `connects` and `connects_again` say whether the two connections to Redis can be made
  unfoldable pub create_app : Bool → Bool → Settings → Result Exception App
  unfolding from_plaintext discard_raw_api_keys build_rate_limit_backend assemble
  create_app connects connects_again settings =
      let key_hashes = from_plaintext sha256 settings.api_keys in
      let kept = discard_raw_api_keys settings in
      build_rate_limit_backend hz connects (limit_settings kept) none none >>= λ rate_limiter.
      build_rate_limit_backend hz connects_again (limit_settings kept)
        (some kept.pre_auth_rpm_per_ip) (some "preauth:")
      >>= λ pre_auth_rate_limiter. ok (assemble kept key_hashes rate_limiter pre_auth_rate_limiter)

-- GET /health
unfoldable pub health : List (String × String)
health = ("status", "ok") ∷ []

-- GET /v1/models, behind the rate limit
unfoldable pub get_models :
    {S : Type 0} → App → Backend S → ApiKeyPrincipal → S → Result Exception (List ModelInfo) × S
unfolding enforce_rate_limit list_models
get_models app backend principal s =
    let (outcome, s') = enforce_rate_limit backend principal s in
    (outcome >>= (λ p. ok (list_models app.models)), s')
