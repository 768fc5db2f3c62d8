-- ===== src/Errors/Handlers.antt =====
-- app/errors.py: the exception handlers, and the level at which a provider failure is logged.
use ai_serving_backend.Prelude.{
  ℕ, String, true, Option, none, some, List, [], str_eq, leb, ◌==◌, if◌then◌else◌,
}
use ai_serving_backend.Prelude.Dict.{Dict}
use ai_serving_backend.Request.{RequestState}
use ai_serving_backend.Errors.{
  ProviderDetail, policy_violation, ApiError, ValidationError, Exception, api, http, validation,
  other, JsonResponse, openai_error_body, validation_message,
}

unfoldable pub api_error_handler : ApiError → RequestState → JsonResponse × RequestState
unfolding openai_error_body
api_error_handler e s = (
  record {
    status_code = e.status_code;
    content = openai_error_body e.message e.error_type e.code;
    headers = e.headers;
  },
  record s { error_type = some e.error_type },
)

unfoldable pub policy_violation_error_handler :
    ApiError → RequestState → JsonResponse × RequestState
policy_violation_error_handler e s = (
  record {
    status_code = e.status_code;
    content = record { message = e.message; type = e.error_type; code = e.code; param = true };
    headers = e.headers;
  },
  record s { error_type = some e.error_type },
)

unfoldable pub validation_error_handler :
    List ValidationError → RequestState → JsonResponse × RequestState
unfolding openai_error_body validation_message
validation_error_handler errors s = (
  record {
    status_code = 422;
    content =
        openai_error_body (validation_message errors) "invalid_request_error"
          (some "invalid_request");
    headers = [];
  },
  record s { error_type = some "invalid_request_error" },
)

abbrev detail_message : Option String → String
detail_message none = "HTTP error"
detail_message (some detail) = if str_eq detail "" then "HTTP error" else detail

unfoldable pub http_error_handler :
    ℕ → Option String → Dict String → RequestState → JsonResponse × RequestState
unfolding openai_error_body
http_error_handler status detail headers s = (
  record {
    status_code = status;
    content =
        openai_error_body (detail_message detail) "invalid_request_error"
          (some (if status == 413 then "request_too_large" else "http_error"));
    headers = headers;
  },
  record s { error_type = some "http_error" },
)

unfoldable pub unhandled_error_handler : RequestState → JsonResponse × RequestState
unfolding openai_error_body
unhandled_error_handler s = (
  record {
    status_code = 500;
    content = openai_error_body "Internal server error" "server_error" (some "internal_error");
    headers = [];
  },
  record s { error_type = some "server_error" },
)

-- register_exception_handlers: the handler of the most derived class that is registered
unfoldable pub handle : Exception → RequestState → JsonResponse × RequestState
unfolding api_error_handler policy_violation_error_handler validation_error_handler
    http_error_handler unhandled_error_handler
handle (api e) s = elim e.class [
  | policy_violation ↦ policy_violation_error_handler e s
  | _ ↦ api_error_handler e s
]
handle (http status detail headers) s = http_error_handler status detail headers s
handle (validation errors) s = validation_error_handler errors s
handle other s = unhandled_error_handler s

pub data Level : Type 0 where
  warning error : Level

-- the level at which a provider error is logged
unfoldable pub provider_log_level : ProviderDetail → Level
provider_log_level d = elim d.upstream_status [
  | none ↦ error
  | some s ↦ if leb 500 s then error else warning
]
