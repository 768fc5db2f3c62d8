-- ===== src/RateLimit/Memory.antt =====
-- app/ratelimit/memory.py. Each method runs under the backend's lock, so a call is one step. `now` is
-- the reading of `time.monotonic`, which never goes back: on such readings the difference of two of
-- them is exact in ℕ.
pub mod Refines
pub mod Retry
use ai_serving_backend.Prelude.{
  ℕ, zero, suc, ◌+◌, ◌-◌, ◌*◌, ◌/◌, min, String, Bool, true, false, Option, none, some, [], leb,
  ◌==◌, if◌then◌else◌,
}
use ai_serving_backend.Prelude.Dict
use ai_serving_backend.Prelude.Dict.{Dict}
use ai_serving_backend.RateLimit.{
  Rate, one_token, capacity, RateLimitResult, inf, whole, shortfall, no_wait, at_least_one,
}

pub record Bucket : Type 0 where
  pub tokens : ℕ
  pub updated_at : ℕ

pub record InMemoryRateLimit : Type 0 where
  pub rate : Rate
  pub buckets : Dict Bucket

unfoldable pub init : Rate → InMemoryRateLimit
init r = record { rate = r; buckets = [] }

refilled : Rate → ℕ → Bucket → Bucket
refilled r now b = record {
  tokens = min (capacity r) (b.tokens + (now - b.updated_at) * r.requests_per_minute);
  updated_at = now;
}

unfoldable pub refill_bucket :
    InMemoryRateLimit → String → ℕ → Bool → Option Bucket × InMemoryRateLimit
unfolding refilled
refill_bucket l key now create = elim (Dict.get key l.buckets) [
  | some b ↦
      let b' = refilled l.rate now b in (some b', record l { buckets = Dict.put key b' l.buckets })
  | none ↦
      if create
      then (let b' = refilled l.rate now (record { tokens = capacity l.rate; updated_at = now }) in
          (some b', record l { buckets = Dict.put key b' l.buckets }))
      else (none, l)
]

abbrev pub unlimited : RateLimitResult
unlimited = record { allowed = true; retry_after_seconds = no_wait; remaining = inf }

unfoldable pub result_for_bucket : Rate → Option Bucket → RateLimitResult
result_for_bucket r none = unlimited
result_for_bucket r (some b) =
    if leb (one_token r) b.tokens
    then record {
      allowed = true;
      retry_after_seconds = no_wait;
      remaining = whole (b.tokens / one_token r);
    }
    else record {
      allowed = false;
      retry_after_seconds = at_least_one (shortfall r b.tokens);
      remaining = whole 0;
    }

unfoldable pub preview : String → ℕ → InMemoryRateLimit → RateLimitResult × InMemoryRateLimit
unfolding refill_bucket result_for_bucket
preview key now l =
    if l.rate.requests_per_minute == 0
    then (unlimited, l)
    else (let (bucket, l') = refill_bucket l key now false in
        (result_for_bucket l'.rate bucket, l'))

-- what `allow` does with the bucket that it got
consume : String → Option Bucket → InMemoryRateLimit → RateLimitResult × InMemoryRateLimit
consume key none l = (unlimited, l)
consume key (some b) l =
    if leb (one_token l.rate) b.tokens
    then (let tokens = b.tokens - one_token l.rate in
        (
          record {
            allowed = true;
            retry_after_seconds = no_wait;
            remaining = whole (tokens / one_token l.rate);
          },
          record l { buckets = Dict.put key (record b { tokens = tokens }) l.buckets },
        ))
    else (result_for_bucket l.rate (some b), l)

unfoldable pub allow : String → ℕ → InMemoryRateLimit → RateLimitResult × InMemoryRateLimit
unfolding refill_bucket consume result_for_bucket
allow key now l =
    if l.rate.requests_per_minute == 0
    then (unlimited, l)
    else (let (bucket, l') = refill_bucket l key now true in consume key bucket l')
