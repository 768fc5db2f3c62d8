-- ===== src/Providers.antt =====
-- app/providers: the translation between the internal form and the vendors' clients. A client's call
-- is an argument: it gives a response, or raises the vendor's APIError, which is kept as what the
-- provider reads of it, or another exception.
pub mod Anthropic
pub mod OpenAi
mod Tests
use ai_serving_backend.Prelude.{
  ℕ, String, Bool, true, false, Option, none, some, List, [], ◌∷◌, str_eq, if◌then◌else◌, Result,
  ok, raise,
}
use ai_serving_backend.Errors.{
  ProviderDetail, ApiError, Exception, api, other, api_error, provider_configuration,
  provider_api_error,
}

-- a vendor's APIError: the status, of the exception or of its response, as `int` reads it; the
-- retry-after header of the response, or else of the exception
pub record VendorError : Type 0 where
  pub upstream_status : Option ℕ
  pub message : String
  pub class_name : String
  pub retry_after : Option String

pub data Raised : Type 0 where
  vendor : VendorError → Raised
  unrelated : Raised

-- an empty header is no header
abbrev header_value : Option String → Option String
header_value none = none
header_value (some v) = if str_eq v "" then none else some v

-- _provider_error
unfoldable pub provider_error : String → VendorError → ApiError
unfolding provider_api_error
provider_error name e = provider_api_error (record {
  provider = some name;
  upstream_status = e.upstream_status;
  raw_message = some e.message;
  raw_error_class = some e.class_name;
  retry_after = header_value e.retry_after;
})

unfoldable pub translate : String → Raised → Exception
unfolding provider_error
translate name (vendor e) = api (provider_error name e)
translate name unrelated = other

-- _get_client: it needs a key
unfoldable pub get_client : String → Option String → Result Exception Unit
get_client message none = raise (api (api_error provider_configuration message []))
get_client message (some key) =
    if str_eq key "" then raise (api (api_error provider_configuration message [])) else ok tt
