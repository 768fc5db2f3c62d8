-- ===== src/RateLimit/Tests.antt =====
-- The limiters at one run of calls.
use ai_serving_backend.Prelude.{
  ◌+◌, ◌-◌, ◌*◌, ◌≤◌, ◌<◌, ◌≡◌, refl, true, false, List, [], ◌∷◌, arith,
}
use ai_serving_backend.Prelude.Dict
use ai_serving_backend.RateLimit.{Rate, one_token, capacity, allows, previews, retry_after}
use ai_serving_backend.RateLimit.Spec.{Call, decisions, full, granted, duration}
use ai_serving_backend.RateLimit.Memory.{InMemoryRateLimit, init, allow}
use ai_serving_backend.RateLimit.Memory.Refines.{
  run, run-init-refines, run-granted-le, allowed_of, Inv,
}
use ai_serving_backend.RateLimit.Memory.Retry.{allow_retry_after}
use ai_serving_backend.RateLimit.Redis.{RedisTokenBucketRateLimit}
use ai_serving_backend.RateLimit.Redis.Refines as RedisRefines
use ai_serving_backend.RateLimit.Redis.Refines.{run-empty-refines, run-eq-memory}

-- two requests in a minute, by a clock of ten ticks to the second
abbrev slow : Rate
slow = record { requests_per_minute = 2; hz = 10 }

-- three at once, of which the third finds the bucket empty; one of another key; and one after half a
-- minute
abbrev burst : List Call
burst =
    record { dt = 0; key = "a"; query = allows }
    ∷ record { dt = 0; key = "a"; query = allows }
    ∷ record { dt = 0; key = "a"; query = allows }
    ∷ record { dt = 0; key = "b"; query = previews }
    ∷ record { dt = 300; key = "a"; query = allows }
    ∷ []

run-init-refines_example : allowed_of (run 5 (init slow) burst) ≡ decisions slow (full slow) burst
run-init-refines_example = run-init-refines slow 5 burst (ground arith)

run-granted-le_example :
    granted "a" burst (allowed_of (run 5 (init slow) burst)) * one_token slow
    ≤ capacity slow + duration burst * 2
run-granted-le_example = run-granted-le slow 5 burst "a" (ground arith)

abbrev store : RedisTokenBucketRateLimit
store = record { rate = slow; key_prefix = "rl:"; ttl_seconds = 60 }

run-empty-refines_example :
    allowed_of (RedisRefines.run store 7 5 [] burst) ≡ decisions slow (full slow) burst
run-empty-refines_example = run-empty-refines store 7 5 burst (ground arith) (ground arith)

run-eq-memory_example :
    allowed_of (RedisRefines.run store 7 900 [] burst) ≡ allowed_of (run 5 (init slow) burst)
run-eq-memory_example = run-eq-memory store 7 900 5 burst (ground arith) (ground arith)

-- a bucket that holds a third of a token
abbrev drained : InMemoryRateLimit
drained = record { rate = slow; buckets = ("a", record { tokens = 200; updated_at = 5 }) ∷ [] }

drained-Inv : Inv drained 5
unfolding Dict.get
drained-Inv = record { limited = ground arith; settled = λ k. ground arith }

drained-refuses : (allow "a" 5 drained).0.allowed ≡ false
unfolding allow Dict.get Dict.put
drained-refuses = refl

allow_retry_after_example :
    let (result, l) = allow "a" 5 drained in
    (1 ≤ retry_after result)
    × ((allow "a" (5 + retry_after result * 10) l).0.allowed ≡ true)
    × (1 < retry_after result → (allow "a" (5 + (retry_after result - 1) * 10) l).0.allowed ≡ false)
allow_retry_after_example =
    allow_retry_after "a" 5 drained drained-Inv (ground arith) drained-refuses
