-- ===== src/Errors/Handling.antt =====
-- What a client can learn from an error response, and what is recorded of it.
use ai_serving_backend.Prelude.{ℕ, ◌≤◌, ◌<◌, String, ◌≡◌, ◌≢◌, ◌↔◌, ◌⊎◌, refl, some, arith}
use ai_serving_backend.Prelude.Dict.{Dict}
use ai_serving_backend.Request.{RequestState}
use ai_serving_backend.Errors.{
  ErrorClass, base, ProviderDetail, Exception, api, http, validation, other, api_error,
  provider_api_error,
}
use ai_serving_backend.Errors.Handlers.{handle}

-- A provider failure is shown as 429 exactly when the upstream said 429, as 400 exactly when the
-- upstream refused the request with another 4xx than 401 and 403, and as 502 otherwise; no other
-- status occurs. So an upstream that rejects the service's own credentials is a 502.
pub provider_status :
    (d : ProviderDetail)
    → let e = provider_api_error d in
      ((e.status_code ≡ 429) ↔ (d.upstream_status ≡ some 429))
      × ((e.status_code ≡ 400) ↔ (
          (s : ℕ) × (d.upstream_status ≡ some s)
          × (400 ≤ s)
          × (s < 500)
          × (s ≢ 401)
          × (s ≢ 403)
          × (s ≢ 429)))
      × ((e.status_code ≡ 429) ⊎ (e.status_code ≡ 400) ⊎ (e.status_code ≡ 502))
unfolding provider_api_error
provider_status d = grind arith

-- The response to a provider failure depends on the upstream's status and Retry-After alone: no two
-- failures that agree on these can be told apart, whatever their messages and classes were.
pub provider_response_hides_detail :
    (d d' : ProviderDetail) (s : RequestState)
    → d.upstream_status ≡ d'.upstream_status
    → d.retry_after ≡ d'.retry_after
    → handle (api (provider_api_error d)) s ≡ handle (api (provider_api_error d')) s
unfolding provider_api_error handle
provider_response_hides_detail d d' s h k = grind arith

-- Every handler records an error type and leaves the rest of the request's state alone.
pub handle-records :
    (e : Exception) (s : RequestState)
    → (t : String) × ((handle e s).1 ≡ record s { error_type = some t })
unfolding handle
handle-records (api e) s = (e.error_type, ground arith)
handle-records (http status detail headers) s = ("http_error", refl)
handle-records (validation errors) s = ("invalid_request_error", refl)
handle-records other s = ("server_error", refl)

-- An exception that the application raises with the defaults of its class is a response with that
-- class's status, between 400 and 599, and its message, headers and type; the type is what is
-- recorded.
pub handle-api_error :
    (c : ErrorClass) (message : String) (headers : Dict String) (s : RequestState)
    → let (response, s') = handle (api (api_error c message headers)) s in
      (400 ≤ response.status_code)
      × (response.status_code < 600)
      × (response.content.message ≡ message)
      × (response.headers ≡ headers)
      × (s'.error_type ≡ some response.content.type)
unfolding handle api_error
handle-api_error base message headers s = ground arith
handle-api_error c message headers s = ground arith
