-- ===== src/RateLimit/Memory/Retry.antt =====
-- app/ratelimit/memory.py: the Retry-After value of a refusal.
use ai_serving_backend.Prelude.{
  ℕ, ◌+◌, ◌-◌, ◌*◌, ◌≤◌, ◌<◌, max, String, ◌≡◌, true, false, arith, eq_refl, ap, ◌∙◌,
}
use ai_serving_backend.Prelude.Dict
use ai_serving_backend.Prelude.Dict.{get-put}
use ai_serving_backend.RateLimit.{
  Rate, Seconds, allows, ceil, one_token, capacity, shortfall, retry_after, at_least_one,
}
use ai_serving_backend.RateLimit.Spec.{has_token, elapse}
use ai_serving_backend.RateLimit.Memory.{InMemoryRateLimit, allow}
use ai_serving_backend.RateLimit.Memory.Refines.{
  Inv, level, perform-refines, perform-Inv, level-elapse, rate-perform,
}

ceil-ge : (s : Seconds) → 0 < s.den → s.num ≤ ceil s * s.den
ceil-ge s h = grind arith

ceil-lt : (s : Seconds) → 0 < s.num → 0 < s.den → (ceil s - 1) * s.den < s.num
ceil-lt s n h = grind arith

-- The wait that a refusal of `allow` asks for, in terms of the level that the request found.
retry_after-allow :
    (key : String) (now : ℕ) (l : InMemoryRateLimit)
    → 0 < l.rate.requests_per_minute
    → (allow key now l).0.allowed ≡ false
    → retry_after (allow key now l).0
      ≡ max 1 (ceil (at_least_one (shortfall l.rate (level l now key))))
unfolding allow retry_after
retry_after-allow key now l h e = grind arith

-- The decision `d` ticks after a refusal, in terms of the level that the refused request found.
decision_later :
    (key : String) (now d : ℕ) (l : InMemoryRateLimit)
    → Inv l now
    → (allow key now l).0.allowed ≡ false
    → (allow key (now + d) (allow key now l).1).0.allowed
      ≡ has_token l.rate (elapse l.rate d (level l now key))
decision_later key now d l v e =
    let l' = (allow key now l).1 in
    let later =
      perform-refines allows key key (now + d) l' (perform-Inv allows key now l v).limited in
    let first = perform-refines allows key key now l v.limited in
    let risen =
      level-elapse l'.rate now d (Dict.get key l'.buckets)
        ((perform-Inv allows key now l v).settled key) in
    let same : l'.rate ≡ l.rate = rate-perform allows key now l in
    let kept : level l' now key ≡ level l now key = ground (arith, first, e, eq_refl key) in
    later.0 ∙ ap (has_token l'.rate) risen ∙ (λ i. has_token (same i) (elapse (same i) d (kept i)))

ceil-le-one : (s : Seconds) → s.num < s.den → ceil s ≤ 1
ceil-le-one s h = grind arith

-- Raising a wait to one second, as the in-memory backend does, is not seen in whole seconds.
pub whole_seconds : (s : Seconds) → max 1 (ceil (at_least_one s)) ≡ max 1 (ceil s)
whole_seconds s = ground (arith, ceil-le-one s)

wait_covers : (s : Seconds) → 0 < s.den → s.num ≤ max 1 (ceil s) * s.den
wait_covers s h = grind (arith, ceil-ge s h)

wait_tight : (s : Seconds) → 0 < s.den → 1 < max 1 (ceil s) → (max 1 (ceil s) - 1) * s.den < s.num
wait_tight s h k = grind (arith, ceil-lt s)

one_token-le-capacity : (r : Rate) → 0 < r.requests_per_minute → one_token r ≤ capacity r
one_token-le-capacity r h = grind arith

-- The least whole number of seconds, and at least one, after which the level covers a token.
enough_seconds :
    (r : Rate) (level n : ℕ)
    → 0 < r.hz
    → 0 < r.requests_per_minute
    → n ≡ max 1 (ceil (shortfall r level))
    → (has_token r (elapse r (n * r.hz) level) ≡ true)
      × (1 < n → has_token r (elapse r ((n - 1) * r.hz) level) ≡ false)
enough_seconds r level n h p e =
    let s = shortfall r level in
    let den : 0 < s.den = grind arith in
    let covers : s.num ≤ n * s.den = rw (← e) at (wait_covers s den) in
    let tight : (1 < n → (n - 1) * s.den < s.num) = rw (← e) at (wait_tight s den) in
    (ground (arith, covers, one_token-le-capacity r p), λ more. ground (arith, tight more))

-- A refused request carries a Retry-After of at least one second. The same key, left alone, is let
-- through after that many seconds, and, where that is more than one, not yet a second earlier.
pub allow_retry_after :
    (key : String) (now : ℕ) (l : InMemoryRateLimit)
    → Inv l now
    → 0 < l.rate.hz
    → (allow key now l).0.allowed ≡ false
    → let (result, l') = allow key now l in
      (1 ≤ retry_after result)
      × ((allow key (now + retry_after result * l.rate.hz) l').0.allowed ≡ true)
      × (1 < retry_after result
          → (allow key (now + (retry_after result - 1) * l.rate.hz) l').0.allowed ≡ false)
allow_retry_after key now l v h e =
    let n = retry_after (allow key now l).0 in
    let p = v.limited in
    let is_n =
      retry_after-allow key now l p e ∙ whole_seconds (shortfall l.rate (level l now key)) in
    let (enough, least) = enough_seconds l.rate (level l now key) n h p is_n in
    (
      omega (arith, is_n),
      decision_later key now (n * l.rate.hz) l v e ∙ enough,
      λ more. decision_later key now ((n - 1) * l.rate.hz) l v e ∙ least more,
    )
