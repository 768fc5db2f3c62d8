-- ===== src/RateLimit/Redis.antt =====
-- app/ratelimit/redis.py: the two Lua scripts, which the server runs as one step each, and the calls
-- around them. `now` is what `now_fn` returns, `server_now` the server's own clock, by which a key
-- expires; both are in ticks. The server returns numbers as text and the client reads them back:
-- they are passed as numbers here.
pub mod Refines
use ai_serving_backend.Prelude.{
  ℕ, zero, suc, ◌+◌, ◌-◌, ◌*◌, ◌/◌, min, String, Bool, true, false, Option, none, some, [], leb,
  ltb, ◌==◌, if◌then◌else◌,
}
use Prim.Native.String
use ai_serving_backend.Prelude.Dict
use ai_serving_backend.Prelude.Dict.{Dict}
use ai_serving_backend.RateLimit.{
  Rate, one_token, capacity, Seconds, RateLimitResult, inf, whole, shortfall, no_wait,
}
use ai_serving_backend.RateLimit.Memory.{unlimited}

-- the hash of a key, and the server time at which the key expires
pub record Entry : Type 0 where
  pub tokens : ℕ
  pub ts : ℕ
  pub expires_at : ℕ

abbrev pub Server : Type 0
Server = Dict Entry

unexpired : ℕ → Option Entry → Option Entry
unexpired server_now none = none
unexpired server_now (some e) = if leb e.expires_at server_now then none else some e

-- HMGET: an expired key is gone
unfoldable pub hmget : String → ℕ → Server → Option Entry
unfolding unexpired
hmget key server_now db = unexpired server_now (Dict.get key db)

-- the level of the bucket at `now`: a missing key is a full bucket, and time never runs back
script_tokens : Rate → ℕ → Option Entry → ℕ
script_tokens r now none = capacity r
script_tokens r now (some e) =
    let elapsed = if ltb now e.ts then 0 else now - e.ts in
    let tokens = e.tokens + elapsed * r.requests_per_minute in
    if ltb (capacity r) tokens then capacity r else tokens

-- {allowed, math.floor(tokens), retry_after}
pub record Reply : Type 0 where
  pub allowed : Bool
  pub floor : ℕ
  pub retry_after : Seconds

abbrev reply : Rate → Bool → ℕ → ℕ → Reply
reply r allowed before after = record {
  allowed = allowed;
  floor = after / one_token r;
  retry_after = if allowed then record { num = 0; den = 1 } else shortfall r before;
}

unfoldable pub allow_script : Rate → ℕ → String → ℕ → ℕ → Server → Reply × Server
unfolding script_tokens hmget
allow_script r ttl_seconds key now server_now db =
    let tokens = script_tokens r now (hmget key server_now db) in
    let allowed = leb (one_token r) tokens in
    let left = if allowed then tokens - one_token r else tokens in
    (
      reply r allowed tokens left,
      Dict.put key
          (record { tokens = left; ts = now; expires_at = server_now + ttl_seconds * r.hz }) db,
    )

unfoldable pub preview_script : Rate → String → ℕ → ℕ → Server → Reply
unfolding script_tokens hmget
preview_script r key now server_now db =
    let tokens = script_tokens r now (hmget key server_now db) in
    reply r (leb (one_token r) tokens) tokens tokens

pub record RedisTokenBucketRateLimit : Type 0 where
  pub rate : Rate
  pub key_prefix : String
  pub ttl_seconds : ℕ

-- `_parse_script_result` and the result that the two methods make of it
unfoldable pub result_of_reply : Reply → RateLimitResult
result_of_reply p = record {
  allowed = p.allowed;
  retry_after_seconds = if p.allowed then no_wait else p.retry_after;
  remaining = whole p.floor;
}

unfoldable pub allow :
    RedisTokenBucketRateLimit → String → ℕ → ℕ → Server → RateLimitResult × Server
unfolding allow_script result_of_reply
allow l key now server_now db =
    if l.rate.requests_per_minute == 0
    then (unlimited, db)
    else (let (p, db') =
          allow_script l.rate l.ttl_seconds (String.◌++◌ l.key_prefix key) now server_now db in
        (result_of_reply p, db'))

unfoldable pub preview : RedisTokenBucketRateLimit → String → ℕ → ℕ → Server → RateLimitResult
unfolding preview_script result_of_reply
preview l key now server_now db =
    if l.rate.requests_per_minute == 0
    then unlimited
    else result_of_reply (preview_script l.rate (String.◌++◌ l.key_prefix key) now server_now db)
