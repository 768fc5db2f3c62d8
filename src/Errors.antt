-- ===== src/Errors.antt =====
-- app/errors.py: the exceptions of the application and the bodies of its error responses; Handlers has
-- the handlers.
pub mod Handlers
pub mod Handling
mod Tests
use ai_serving_backend.Prelude.{
  ℕ, String, Bool, true, false, ◌&&◌, ◌||◌, Option, none, some, List, [], ◌∷◌, map, str_eq, ltb,
  leb, ◌==◌, if◌then◌else◌, take,
}
use Prim.Native.String
use ai_serving_backend.Prelude.Text.{join}
use ai_serving_backend.Prelude.Dict.{Dict}
use ai_serving_backend.Request.{RequestState}

-- what a ProviderAPIError keeps of the upstream failure
pub record ProviderDetail : Type 0 where
  pub provider : Option String
  pub upstream_status : Option ℕ
  pub raw_message : Option String
  pub raw_error_class : Option String
  pub retry_after : Option String

-- the subclasses of APIError
pub data ErrorClass : Type 0 where
  base authentication rate_limit policy_violation unsupported_model provider_configuration :
      ErrorClass
  provider_api : ProviderDetail → ErrorClass

pub record ApiError : Type 0 where
  pub class : ErrorClass
  pub message : String
  pub status_code : ℕ
  pub error_type : String
  pub code : Option String
  pub headers : Dict String

-- the class attributes
unfoldable pub class_status : ErrorClass → ℕ
class_status base = 500
class_status authentication = 401
class_status rate_limit = 429
class_status policy_violation = 403
class_status unsupported_model = 400
class_status provider_configuration = 503
class_status (provider_api _) = 502

unfoldable pub class_type : ErrorClass → String
class_type base = "server_error"
class_type authentication = "invalid_request_error"
class_type rate_limit = "rate_limit_error"
class_type policy_violation = "content_policy_violation"
class_type unsupported_model = "invalid_request_error"
class_type provider_configuration = "server_error"
class_type (provider_api _) = "provider_error"

unfoldable pub class_code : ErrorClass → String
class_code base = "internal_error"
class_code authentication = "invalid_api_key"
class_code rate_limit = "rate_limit_exceeded"
class_code policy_violation = "content_policy_violation"
class_code unsupported_model = "model_not_found"
class_code provider_configuration = "provider_not_configured"
class_code (provider_api _) = "provider_error"

-- APIError.__init__ with only a message and headers
unfoldable pub api_error : ErrorClass → String → Dict String → ApiError
unfolding class_status class_type class_code
api_error class message headers = record {
  class = class;
  message = message;
  status_code = class_status class;
  error_type = class_type class;
  code = some (class_code class);
  headers = headers;
}

-- PolicyViolationError()
abbrev pub policy_violation_error : ApiError
policy_violation_error = api_error policy_violation "Request blocked by content policy." []

abbrev is_4xx : ℕ → Bool
is_4xx s = leb 400 s && ltb s 500

-- the header of an upstream 429; an empty value is dropped
abbrev retry_header : Option String → Dict String
retry_header none = []
retry_header (some value) = if str_eq value "" then [] else ("Retry-After", value) ∷ []

abbrev provider_with : ProviderDetail → String → ℕ → String → String → Dict String → ApiError
provider_with d message status error_type code headers = record {
  class = provider_api d;
  message = message;
  status_code = status;
  error_type = error_type;
  code = some code;
  headers = headers;
}

provider_rejection : ProviderDetail → ℕ → ApiError
provider_rejection d s =
    if s == 429
    then provider_with d "Upstream provider rate limit exceeded" 429 "rate_limit_error"
        "rate_limit_exceeded" (retry_header d.retry_after)
    else if s == 401 || s == 403
    then provider_with d "Upstream provider error" 502 "provider_error" "provider_error" []
    else if is_4xx s
    then (if s == 400 || s == 404
        then provider_with d "Upstream provider rejected the requested model" 400
            "invalid_request_error" "model_not_found" []
        else provider_with d "Upstream provider rejected the request" 400 "invalid_request_error"
            "invalid_request" [])
    else provider_with d "Upstream provider error" 502 "provider_error" "provider_error" []

-- ProviderAPIError.__init__
unfoldable pub provider_api_error : ProviderDetail → ApiError
unfolding provider_rejection
provider_api_error d = elim d.upstream_status [
  | none ↦ provider_with d "Upstream provider error" 502 "provider_error" "provider_error" []
  | some s ↦ provider_rejection d s
]

-- one entry of RequestValidationError.errors()
pub record ValidationError : Type 0 where
  pub loc : List String
  pub msg : Option String

-- Every exception that can reach the handlers: the application's, Starlette's HTTPException (status,
-- detail, headers), RequestValidationError, and any other.
pub data Exception : Type 0 where
  api : ApiError → Exception
  http : ℕ → Option String → Dict String → Exception
  validation : List ValidationError → Exception
  other : Exception

pub record ErrorBody : Type 0 where
  pub message : String
  pub type : String
  pub code : Option String
  -- whether the body has the entry `"param": null`
  pub param : Bool

pub record JsonResponse : Type 0 where
  pub status_code : ℕ
  pub content : ErrorBody
  pub headers : Dict String

unfoldable pub openai_error_body : String → String → Option String → ErrorBody
openai_error_body message error_type code = record {
  message = message;
  type = error_type;
  code = code;
  param = false;
}

abbrev describe : ValidationError → String
describe e =
    let location = join "." e.loc in
    let message : String = elim e.msg [ none ↦ "Invalid value" | some m ↦ m ] in
    if str_eq location "" then message else String.◌++◌ location (String.◌++◌ ": " message)

unfoldable pub validation_message : List ValidationError → String
unfolding join
validation_message errors =
    String.◌++◌ "Invalid request: " (join "; " (map describe (take 3 errors)))
