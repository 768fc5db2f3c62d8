-- ===== src/RateLimit/Memory/Refines.antt =====
-- app/ratelimit/memory.py against the token bucket.
use ai_serving_backend.Prelude.{
  ℕ, ◌+◌, ◌-◌, ◌*◌, ◌≤◌, ◌<◌, min, String, ◌≡◌, refl, ap, ◌∙◌, Bool, List, [], ◌∷◌, Option, none,
  some, arith, eq_iff, map, fun_ext,
}
use ai_serving_backend.Prelude.Dict
use ai_serving_backend.Prelude.Dict.{get-put, get-nil}
use ai_serving_backend.RateLimit.{
  Rate, RateLimitResult, Query, allows, previews, one_token, capacity,
}
use ai_serving_backend.RateLimit.Spec.{
  Levels, elapse, has_token, after, at_key, full, Call, decisions, granted, granted-le, duration,
}
use ai_serving_backend.RateLimit.Memory.{Bucket, InMemoryRateLimit, init, allow, preview, unlimited}

-- What a request at `now` finds in a bucket; a key with no bucket finds a full one.
abbrev pub level_of : Rate → ℕ → Option Bucket → ℕ
level_of r now none = capacity r
level_of r now (some b) = min (capacity r) (b.tokens + (now - b.updated_at) * r.requests_per_minute)

abbrev pub level : InMemoryRateLimit → ℕ → Levels
level l now k = level_of l.rate now (Dict.get k l.buckets)

abbrev pub Settled : Rate → ℕ → Option Bucket → Type 0
Settled r now none = Unit
Settled r now (some b) = (b.updated_at ≤ now) × (b.tokens ≤ capacity r)

-- No bucket is ahead of the clock or over its capacity.
pub record Inv (l : InMemoryRateLimit) (now : ℕ) : Type 0 where
  pub limited : 0 < l.rate.requests_per_minute
  pub settled : (k : String) → Settled l.rate now (Dict.get k l.buckets)

pub level-elapse :
    (r : Rate) (now dt : ℕ) (o : Option Bucket)
    → Settled r now o
    → level_of r (now + dt) o ≡ elapse r dt (level_of r now o)
level-elapse r now dt none h = omega arith
level-elapse r now dt (some b) h =
    let later : now + dt - b.updated_at ≡ (now - b.updated_at) + dt = omega arith in
    rw later (omega arith)

later-Settled :
    (r : Rate) (now dt : ℕ) (o : Option Bucket) → Settled r now o → Settled r (now + dt) o
later-Settled r now dt none h = tt
later-Settled r now dt (some b) h = omega arith

abbrev pub perform : Query → String → ℕ → InMemoryRateLimit → RateLimitResult × InMemoryRateLimit
perform allows = allow
perform previews = preview

-- One call: the decision is that of the level, the level of the key changes as the bucket does, and
-- the other keys keep theirs.
pub perform-refines :
    (q : Query) (key k : String) (now : ℕ) (l : InMemoryRateLimit)
    → 0 < l.rate.requests_per_minute
    → ((perform q key now l).0.allowed ≡ has_token l.rate (level l now key))
      × (level (perform q key now l).1 now k ≡ at_key key (after l.rate q) (level l now) k)
unfolding allow preview
perform-refines allows key k now l h = (grind arith, grind (arith, get-put, eq_iff key k))
perform-refines previews key k now l h = (grind arith, grind (arith, get-put, eq_iff key k))

pub rate-perform :
    (q : Query) (key : String) (now : ℕ) (l : InMemoryRateLimit)
    → (perform q key now l).1.rate ≡ l.rate
unfolding allow preview
rate-perform allows key now l = ground arith
rate-perform previews key now l = ground arith

perform-Settled :
    (q : Query) (key k : String) (now : ℕ) (l : InMemoryRateLimit)
    → Settled l.rate now (Dict.get k l.buckets)
    → Settled l.rate now (Dict.get k (perform q key now l).1.buckets)
unfolding allow preview
perform-Settled allows key k now l h = grind (arith, get-put)
perform-Settled previews key k now l h = grind (arith, get-put)

-- The results of a run of calls, the first of them `dt` ticks after `now`.
unfoldable pub run : ℕ → InMemoryRateLimit → List Call → List RateLimitResult
run now l [] = []
run now l (c ∷ cs) =
    let (result, l') = perform c.query c.key (now + c.dt) l in result ∷ run (now + c.dt) l' cs

later-Inv : (l : InMemoryRateLimit) (now dt : ℕ) → Inv l now → Inv l (now + dt)
later-Inv l now dt v = record {
  limited = v.limited;
  settled = λ k. later-Settled l.rate now dt (Dict.get k l.buckets) (v.settled k);
}

pub perform-Inv :
    (q : Query) (key : String) (now : ℕ) (l : InMemoryRateLimit)
    → Inv l now
    → Inv (perform q key now l).1 now
perform-Inv q key now l v = record {
  limited = rw rate-perform v.limited;
  settled = λ k. rw rate-perform (perform-Settled q key k now l (v.settled k));
}

abbrev pub allowed_of : List RateLimitResult → List Bool
allowed_of = map (λ r. r.allowed)

-- The decisions of any run are those of the token bucket at the levels that the buckets hold.
pub run-refines :
    (now : ℕ) (l : InMemoryRateLimit) (cs : List Call)
    → Inv l now
    → allowed_of (run now l cs) ≡ decisions l.rate (level l now) cs
unfolding run decisions
run-refines now l [] v = refl
run-refines now l (c ∷ cs) v =
    let later = now + c.dt in
    let l' = (perform c.query c.key later l).1 in
    let risen : level l later ≡ (λ k. elapse l.rate c.dt (level l now k)) =
      fun_ext (λ k. level-elapse l.rate now c.dt (Dict.get k l.buckets) (v.settled k)) in
    let moved : level l' later ≡ at_key c.key (after l.rate c.query) (level l later) =
      fun_ext (λ k. (perform-refines c.query c.key k later l v.limited).1) in
    let head = (perform-refines c.query c.key c.key later l v.limited).0 in
    let ih = run-refines later l' cs (perform-Inv c.query c.key later l (later-Inv l now c.dt v)) in
    let same = rate-perform c.query c.key later l in
    let levels = moved ∙ ap (at_key c.key (after l.rate c.query)) risen in
    let heads = head ∙ ap (λ (f : Levels). has_token l.rate (f c.key)) risen in
    let tails = ih ∙ (λ i. decisions (same i) (levels i) cs) in λ i. heads i ∷ tails i

pub init-Inv : (r : Rate) (now : ℕ) → 0 < r.requests_per_minute → Inv (init r) now
unfolding init
init-Inv r now h = record { limited = h; settled = λ k. rw get-nil tt }

init-levels : (r : Rate) (now : ℕ) → level (init r) now ≡ full r
unfolding init
init-levels r now = fun_ext (λ k. rw get-nil refl)

-- From an empty backend with a positive limit, the decisions of any run of calls, at any times that
-- do not go back, are those of token buckets that start full.
pub run-init-refines :
    (r : Rate) (now : ℕ) (cs : List Call)
    → 0 < r.requests_per_minute
    → allowed_of (run now (init r) cs) ≡ decisions r (full r) cs
unfolding init
run-init-refines r now cs h =
    run-refines now (init r) cs (init-Inv r now h)
    ∙ ap (λ (f : Levels). decisions r f cs) (init-levels r now)

-- However the calls are spaced and mixed, in a run from an empty backend the requests of one key
-- that are let through number at most the limit plus what the elapsed time refills: times 60 * hz,
-- at most rpm * 60 * hz + duration * rpm.
pub run-granted-le :
    (r : Rate) (now : ℕ) (cs : List Call) (k : String)
    → 0 < r.requests_per_minute
    → granted k cs (allowed_of (run now (init r) cs)) * one_token r
      ≤ capacity r + duration cs * r.requests_per_minute
run-granted-le r now cs k h = rw (run-init-refines r now cs h) (granted-le r (full r) cs k)

-- A limit of 0 lets every call through, and stores nothing.
pub perform-unlimited :
    (q : Query) (key : String) (now : ℕ) (l : InMemoryRateLimit)
    → l.rate.requests_per_minute ≡ 0
    → perform q key now l ≡ (unlimited, l)
unfolding allow preview
perform-unlimited allows key now l h = ground arith
perform-unlimited previews key now l h = ground arith
