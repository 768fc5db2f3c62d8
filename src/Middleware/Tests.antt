-- ===== src/Middleware/Tests.antt =====
-- A body in two pieces, and a login that fails.
use ai_serving_backend.Prelude.{ℕ, ◌≡◌, refl, none, List, [], ◌∷◌, Result, ok, ltb, if◌then◌else◌}
use ai_serving_backend.Errors.{Exception, JsonResponse, openai_error_body}
use ai_serving_backend.RateLimit.{RateLimitResult, whole}
use ai_serving_backend.RateLimit.Enforce.{Backend}
use ai_serving_backend.Middleware.{
  Message, http_request, other_message, bytes, declared_too_large, body_size_limit, too_large,
  total, body_size_limit_lem, pre_auth,
}

abbrev pieces : List Message
pieces = http_request 6 ∷ other_message ∷ http_request 7 ∷ []

abbrev app : ℕ → JsonResponse
app n = record { status_code = 200; content = openai_error_body "" "" none; headers = [] }

body_size_limit_lem_example : body_size_limit 10 (bytes 5) pieces app ≡ (
    if declared_too_large 10 (bytes 5)
    then too_large
    else if ltb 10 (total pieces)
    then too_large
    else app (total pieces))
body_size_limit_lem_example = body_size_limit_lem 10 (bytes 5) pieces app

-- a limiter with a number of tokens left
abbrev answer : ℕ → RateLimitResult
answer n = record {
  allowed = ltb 0 n;
  retry_after_seconds = record { num = 1; den = 1 };
  remaining = whole n;
}

abbrev counter : Backend ℕ
counter = record {
  requests_per_minute = 1;
  allow = λ key n. (ok (answer n), 0);
  preview = λ key n. (ok (answer n), n);
}

abbrev unauthorized : JsonResponse
unauthorized = record { status_code = 401; content = openai_error_body "" "" none; headers = [] }

abbrev fails_login : ℕ → Result Exception JsonResponse × ℕ
fails_login n = (ok unauthorized, n)

failed_login_charged : pre_auth counter "1.2.3.4" fails_login 1 ≡ (ok unauthorized, 0)
unfolding pre_auth
failed_login_charged = refl
