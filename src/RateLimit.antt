-- ===== src/RateLimit.antt =====
-- app/ratelimit/base.py, and the arithmetic of the token buckets. A float of the source is an exact
-- fraction here: a clock reading is a number of ticks, `hz` ticks to the second, and an amount of
-- tokens is counted in units, `60 * hz` units to the token, so that a bucket of `rpm` requests per
-- minute gains exactly `rpm` units in a tick.
pub mod Spec
pub mod Memory
pub mod Redis
pub mod Enforce
mod Tests
use ai_serving_backend.Prelude.{
  ℕ, zero, suc, ◌+◌, ◌-◌, ◌*◌, ◌/◌, Bool, true, false, leb, ltb, max, if◌then◌else◌,
}

-- The limit of a backend and the resolution of its clock.
pub record Rate : Type 0 where
  pub requests_per_minute : ℕ
  pub hz : ℕ

-- 1.0 token
abbrev pub one_token : Rate → ℕ
one_token r = 60 * r.hz

-- self.capacity
abbrev pub capacity : Rate → ℕ
capacity r = r.requests_per_minute * one_token r

-- `num / den` seconds
pub record Seconds : Type 0 where
  pub num : ℕ
  pub den : ℕ

pub data Remaining : Type 0 where
  inf : Remaining
  whole : ℕ → Remaining

pub record RateLimitResult : Type 0 where
  pub allowed : Bool
  pub retry_after_seconds : Seconds
  pub remaining : Remaining

-- (1.0 - tokens) / refill_per_second, where refill_per_second is rpm / 60
abbrev pub shortfall : Rate → ℕ → Seconds
shortfall r tokens = record { num = one_token r - tokens; den = r.hz * r.requests_per_minute }

abbrev pub no_wait : Seconds
no_wait = record { num = 0; den = 1 }

-- max(x, 1.0)
abbrev pub at_least_one : Seconds → Seconds
at_least_one s = if ltb s.num s.den then record { num = 1; den = 1 } else s

-- math.ceil
abbrev pub ceil : Seconds → ℕ
ceil s = (s.num + s.den - 1) / s.den

-- the value of the Retry-After header: max(1, math.ceil(result.retry_after_seconds))
unfoldable pub retry_after : RateLimitResult → ℕ
retry_after r = max 1 (ceil r.retry_after_seconds)

-- A call of a backend, made `delay` ticks after the call before it.
pub data Query : Type 0 where
  allows previews : Query
