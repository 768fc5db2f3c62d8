-- ===== src/RateLimit/Enforce.antt =====
-- app/ratelimit/base.py and app/ratelimit/__init__.py: the dependency that limits a principal, and
-- the choice of a backend.
use ai_serving_backend.Prelude.{
  ℕ, String, ◌≡◌, ◌↔◌, refl, Bool, true, false, Option, none, some, [], ◌∷◌, arith, str_eq, Result,
  ok, raise, if◌then◌else◌,
}
use ai_serving_backend.Prelude.Text.{str_nat, lower_is}
use ai_serving_backend.Errors.{ApiError, Exception, api, other, rate_limit, api_error}
use ai_serving_backend.Auth.{ApiKeyPrincipal}
use ai_serving_backend.RateLimit.{Rate, RateLimitResult, retry_after}
use ai_serving_backend.RateLimit.Memory.{InMemoryRateLimit, init}
use ai_serving_backend.RateLimit.Redis.{RedisTokenBucketRateLimit}

-- A backend in the state `S`: `allow` and `preview` at the present time. A call may fail, as a call
-- of Redis does when the server is away.
pub record Backend (S : Type 0) : Type 0 where
  pub requests_per_minute : ℕ
  pub allow : String → S → Result Exception RateLimitResult × S
  pub preview : String → S → Result Exception RateLimitResult × S

unfoldable pub verdict :
    ApiKeyPrincipal → Result Exception RateLimitResult → Result Exception ApiKeyPrincipal
verdict p (raise e) = raise e
verdict p (ok result) =
    if result.allowed
    then ok p
    else raise (
        api (
          api_error rate_limit "Rate limit exceeded"
            (("Retry-After", str_nat (retry_after result)) ∷ [])))

-- enforce_rate_limit, after the dependency that authenticates
unfoldable pub enforce_rate_limit :
    {S : Type 0} → Backend S → ApiKeyPrincipal → S → Result Exception ApiKeyPrincipal × S
unfolding verdict
enforce_rate_limit backend p s =
    let (result, s') = backend.allow p.api_key_hash s in (verdict p result, s')

pub record LimitSettings : Type 0 where
  pub rate_limit_rpm : ℕ
  pub rate_limit_backend : String
  pub rate_limit_strict : Bool
  pub redis_url : Option String

pub data AnyBackend : Type 0 where
  memory : InMemoryRateLimit → AnyBackend
  redis : RedisTokenBucketRateLimit → AnyBackend

abbrev pub or_default {ℓ} : {A : Type ℓ} → Option A → A → A
or_default none a = a
or_default (some b) a = b

-- not settings.redis_url
abbrev no_url : Option String → Bool
no_url none = true
no_url (some url) = str_eq url ""

-- build_rate_limit_backend. `connects` says whether `from_url` returns; an error is a ValueError or
-- what `from_url` raised.
unfoldable pub build_rate_limit_backend :
    ℕ → Bool → LimitSettings → Option ℕ → Option String → Result Exception AnyBackend
unfolding lower_is
build_rate_limit_backend hz connects settings requests_per_minute key_prefix =
    let rate : Rate = record {
      requests_per_minute = or_default requests_per_minute settings.rate_limit_rpm;
      hz = hz;
    } in
    let in_memory : Result Exception AnyBackend = ok (memory (init rate)) in
    let fallback = if settings.rate_limit_strict then raise other else in_memory in
    if lower_is settings.rate_limit_backend "memory"
    then in_memory
    else if lower_is settings.rate_limit_backend "redis"
    then (if no_url settings.redis_url
        then fallback
        else if connects
        then ok (
            redis
              (record { rate = rate; key_prefix = or_default key_prefix "rl:"; ttl_seconds = 300 }))
        else fallback)
    else raise other

-- A principal is let through, unchanged, exactly when the backend answers and allows its hash. An
-- answer that does not allow it is a 429 with a Retry-After header. In every case the backend is left
-- as its `allow` left it.
pub enforce_rate_limit_cases :
    {S : Type 0} (backend : Backend S) (p q : ApiKeyPrincipal) (s : S)
    → let (result, s') = backend.allow p.api_key_hash s in
      let (outcome, after) = enforce_rate_limit backend p s in
      ((outcome ≡ ok q)
        ↔ ((q ≡ p) × ((r : RateLimitResult) × (result ≡ ok r) × (r.allowed ≡ true))))
      × ((r : RateLimitResult)
          → result ≡ ok r
          → r.allowed ≡ false
          → (e : ApiError) × (outcome ≡ raise (api e))
            × (e.status_code ≡ 429)
            × (e.headers ≡ ("Retry-After", str_nat (retry_after r)) ∷ []))
      × (after ≡ s')
unfolding enforce_rate_limit api_error
enforce_rate_limit_cases backend p q s = (
  grind arith,
  λ r h k. (
    api_error rate_limit "Rate limit exceeded" (("Retry-After", str_nat (retry_after r)) ∷ []),
    ground (arith, h, k),
    refl,
    refl,
  ),
  refl,
)

-- With the strict setting the service never falls back to the in-memory backend that was not asked
-- for: a backend that is built has the kind that the settings name.
pub strict_never_falls_back :
    (hz : ℕ) (connects : Bool) (settings : LimitSettings) (rpm : Option ℕ) (prefix : Option String)
    (l : InMemoryRateLimit)
    → settings.rate_limit_strict ≡ true
    → build_rate_limit_backend hz connects settings rpm prefix ≡ ok (memory l)
    → lower_is settings.rate_limit_backend "memory" ≡ true
unfolding build_rate_limit_backend
strict_never_falls_back hz connects settings rpm prefix l strict e = ground arith

-- An in-memory backend that is built starts empty, with the rate that was asked for, or else that of
-- the settings.
pub build_rate_limit_backend-memory :
    (hz : ℕ) (connects : Bool) (settings : LimitSettings) (rpm : Option ℕ) (prefix : Option String)
    (l : InMemoryRateLimit)
    → build_rate_limit_backend hz connects settings rpm prefix ≡ ok (memory l)
    → l ≡ init (record { requests_per_minute = or_default rpm settings.rate_limit_rpm; hz = hz })
unfolding build_rate_limit_backend init
build_rate_limit_backend-memory hz connects settings rpm prefix l e = ground arith
