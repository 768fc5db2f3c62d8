-- ===== src/Middleware.antt =====
-- app/middleware.py: the limit on the size of a body, and the limit on failed logins by address.
mod Tests
use ai_serving_backend.Prelude.{
  ℕ, ◌+◌, ◌≤◌, ◌<◌, String, ◌≡◌, ◌↔◌, ◌⊎◌, inl, inr, refl, Bool, true, false, Option, none, some,
  List, [], ◌∷◌, arith, ltb, ◌==◌, Result, ok, raise, if◌then◌else◌, length, max, Bool-cases,
}
use ai_serving_backend.Prelude.Text.{str_nat}
use ai_serving_backend.Errors.{Exception, JsonResponse, http, openai_error_body}
use ai_serving_backend.RateLimit.{RateLimitResult, retry_after}
use ai_serving_backend.RateLimit.Enforce.{Backend}

-- BodySizeLimitMiddleware ---------------------------------------------------------------------------

-- the Content-Length header: missing, no number, or a number (a negative one is never too large)
pub data ContentLength : Type 0 where
  missing malformed negative : ContentLength
  bytes : ℕ → ContentLength

unfoldable pub declared_too_large : ℕ → ContentLength → Bool
declared_too_large max_bytes (bytes n) = ltb max_bytes n
declared_too_large max_bytes _ = false

-- an ASGI message: a piece of the body, given by its length, or any other message
pub data Message : Type 0 where
  http_request : ℕ → Message
  other_message : Message

abbrev body_length : Message → ℕ
body_length (http_request n) = n
body_length other_message = 0

-- limited_receive: the messages that the application gets to see one after the other, with
-- RequestBodyTooLarge in place of the first that passes the limit
unfoldable pub limited_receive : ℕ → ℕ → Message → Result (Unit {0}) ℕ
limited_receive max_bytes received (http_request n) =
    if ltb max_bytes (received + n) then raise tt else ok (received + n)
limited_receive max_bytes received other_message = ok received

-- An application that reads `reads` of the messages: the bytes it has got, or the exception.
unfoldable pub feed : ℕ → ℕ → List Message → Result (Unit {0}) ℕ
feed max_bytes received [] = ok received
feed max_bytes received (m ∷ messages) = elim (limited_receive max_bytes received m) [
  | raise e ↦ raise e
  | ok received' ↦ feed max_bytes received' messages
]

unfoldable pub too_large : JsonResponse
unfolding openai_error_body
too_large = record {
  status_code = 413;
  content =
      openai_error_body "Request body too large" "invalid_request_error" (some "request_too_large");
  headers = [];
}

-- BodySizeLimitMiddleware.__call__ over an application that reads these messages and then responds
unfoldable pub body_size_limit :
    ℕ → ContentLength → List Message → (ℕ → JsonResponse) → JsonResponse
unfolding declared_too_large
body_size_limit max_bytes content_length messages app =
    if declared_too_large max_bytes content_length
    then too_large
    else elim (feed max_bytes 0 messages) [ raise _ ↦ too_large | ok received ↦ app received ]

abbrev pub total : List Message → ℕ
total [] = 0
total (m ∷ messages) = body_length m + total messages

feed_lem :
    (max_bytes received : ℕ) (messages : List Message)
    → received ≤ max_bytes
    → feed max_bytes received messages ≡ (
        if ltb max_bytes (received + total messages)
        then raise tt
        else ok (received + total messages))
unfolding feed limited_receive
feed_lem max_bytes received [] h = ground arith
feed_lem max_bytes received (http_request n ∷ messages) h =
    ground (arith, feed_lem max_bytes (received + n) messages)
feed_lem max_bytes received (other_message ∷ messages) h =
    ground (arith, feed_lem max_bytes received messages h)

-- Whatever the header says or however the body is cut up, the application answers exactly when the
-- body that it reads fits the limit and the header does not announce more; it then has the whole of
-- it. Otherwise the answer is the 413.
pub body_size_limit_lem :
    (max_bytes : ℕ) (content_length : ContentLength) (messages : List Message)
    (app : ℕ → JsonResponse)
    → body_size_limit max_bytes content_length messages app ≡ (
        if declared_too_large max_bytes content_length
        then too_large
        else if ltb max_bytes (total messages)
        then too_large
        else app (total messages))
unfolding body_size_limit
body_size_limit_lem max_bytes content_length messages app =
    ground (arith, feed_lem max_bytes 0 messages)

-- PreAuthRateLimitMiddleware ------------------------------------------------------------------------

unfoldable pub rate_limit_response : RateLimitResult → JsonResponse
unfolding openai_error_body
rate_limit_response result = record {
  status_code = 429;
  content =
      openai_error_body "Authentication rate limit exceeded" "rate_limit_error"
        (some "rate_limit_exceeded");
  headers = ("Retry-After", str_nat (retry_after result)) ∷ [];
}

-- the charge of a 401
abbrev charge : JsonResponse → Result Exception RateLimitResult → Result Exception JsonResponse
charge response (raise e) = raise e
charge response (ok charged) =
    if charged.allowed then ok response else ok (rate_limit_response charged)

-- PreAuthRateLimitMiddleware.dispatch; `call_next` runs the rest of the application, which may use
-- the same backend state `S`
unfoldable pub pre_auth :
    {S : Type 0}
    → Backend S
    → String
    → (S → Result Exception JsonResponse × S)
    → S
    → Result Exception JsonResponse × S
unfolding rate_limit_response
pre_auth limiter key call_next s =
    if limiter.requests_per_minute == 0
    then call_next s
    else (let (preview, s₁) = limiter.preview key s in
        elim preview [
          | raise e ↦ (raise e, s₁)
          | ok previewed ↦
              if previewed.allowed
              then (let (outcome, s₂) = call_next s₁ in
                  elim outcome [
                    | raise e ↦ (raise e, s₂)
                    | ok response ↦
                        if response.status_code == 401
                        then (let (charged, s₃) = limiter.allow key s₂ in
                            (charge response charged, s₃))
                        else (ok response, s₂)
                  ])
              else (ok (rate_limit_response previewed), s₁)
        ])

-- The limit on failed logins. A caller that is over it is turned away before the application runs,
-- and is not charged. The answer of the application goes out unless it is a 401; for a 401 the caller
-- is charged, and gets the 401 exactly when the charge was within the limit.
pub pre_auth_cases :
    {S : Type 0} (limiter : Backend S) (key : String)
    (call_next : S → Result Exception JsonResponse × S) (s : S)
    (previewed charged : RateLimitResult) (response : JsonResponse)
    → 0 < limiter.requests_per_minute
    → (limiter.preview key s).0 ≡ ok previewed
    → let s₁ = (limiter.preview key s).1 in
      let (outcome, s₂) = call_next s₁ in
      let result = pre_auth limiter key call_next s in
      (previewed.allowed ≡ false → result ≡ (ok (rate_limit_response previewed), s₁))
      × (previewed.allowed ≡ true
          → outcome ≡ ok response
          → ((response.status_code ≡ 401 → ⊥) → result ≡ (ok response, s₂))
            × (response.status_code ≡ 401
                → (limiter.allow key s₂).0 ≡ ok charged
                → (result.0
                    ≡ ok (if charged.allowed then response else rate_limit_response charged))
                  × (result.1 ≡ (limiter.allow key s₂).1)))
unfolding pre_auth
pre_auth_cases limiter key call_next s previewed charged response h e =
    (λ over. ground arith, λ under answered. (λ fine. ground arith, λ failed paid. ground arith))
