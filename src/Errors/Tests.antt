-- ===== src/Errors/Tests.antt =====
-- An upstream that refuses the service's own key.
use ai_serving_backend.Prelude.{◌≡◌, refl, none, some}
use ai_serving_backend.Errors.{ProviderDetail, provider_api_error}

abbrev forbidden : ProviderDetail
forbidden = record {
  provider = some "openai";
  upstream_status = some 403;
  raw_message = some "key sk-1 is disabled";
  raw_error_class = some "PermissionDeniedError";
  retry_after = none;
}

shown_as_gateway_error : (provider_api_error forbidden).status_code ≡ 502
unfolding provider_api_error
shown_as_gateway_error = refl
