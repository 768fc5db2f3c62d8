-- ===== src/RateLimit/Redis/Refines.antt =====
-- app/ratelimit/redis.py against the token bucket, and against the in-memory backend.
use Prim.Native.String
use text.Mathlib.TextLemmas.{append_cancel_left}
use ai_serving_backend.Prelude.{
  ℕ, ◌+◌, ◌-◌, ◌*◌, ◌≤◌, ◌<◌, min, String, ◌≡◌, refl, sym, ap, ◌∙◌, List, [], ◌∷◌, Option, none,
  some, arith, str_eq, eq_iff, fun_ext,
}
use ai_serving_backend.Prelude.Dict
use ai_serving_backend.Prelude.Dict.{get-put, get-nil}
use ai_serving_backend.RateLimit.{Rate, RateLimitResult, Query, allows, previews, capacity}
use ai_serving_backend.RateLimit.Spec.{
  Levels, elapse, has_token, after, at_key, full, Call, decisions,
}
use ai_serving_backend.RateLimit.Memory.Refines.{allowed_of}
use ai_serving_backend.RateLimit.Memory.Refines
use ai_serving_backend.RateLimit.Memory
use ai_serving_backend.RateLimit.Redis.{
  Entry, Server, RedisTokenBucketRateLimit, script_tokens, unexpired, hmget, allow, preview,
}

abbrev level_of : Rate → ℕ → Option Entry → ℕ
level_of r now none = capacity r
level_of r now (some e) = min (capacity r) (e.tokens + (now - e.ts) * r.requests_per_minute)

-- The server's clock is `skew` ahead of the callers'. An entry was written in the past, within its
-- capacity, to expire `ttl` seconds later.
abbrev Settled : RedisTokenBucketRateLimit → ℕ → ℕ → Option Entry → Type 0
Settled l skew now none = Unit
Settled l skew now (some e) =
    (e.ts ≤ now)
    × (e.tokens ≤ capacity l.rate)
    × (e.expires_at ≡ e.ts + skew + l.ttl_seconds * l.rate.hz)

mul-le-mul : (a b c : ℕ) → a ≤ b → a * c ≤ b * c
mul-le-mul a b c h = grind arith

idle_minute :
    (r : Rate) (ttl d : ℕ) → 60 ≤ ttl → ttl * r.hz ≤ d → capacity r ≤ d * r.requests_per_minute
idle_minute r ttl d h k = omega (
  arith,
  mul-le-mul (60 * r.hz) d r.requests_per_minute (omega (arith, mul-le-mul 60 ttl r.hz h)),
)

-- A bucket that is dropped after a minute or more has filled up by then: expiry changes nothing.
level_by_entry :
    (l : RedisTokenBucketRateLimit) (skew now : ℕ) (o : Option Entry)
    → 60 ≤ l.ttl_seconds
    → Settled l skew now o
    → script_tokens l.rate now (unexpired (now + skew) o) ≡ level_of l.rate now o
unfolding script_tokens unexpired
level_by_entry l skew now none ttl h = refl
level_by_entry l skew now (some e) ttl h =
    ground (arith, idle_minute l.rate l.ttl_seconds (now - e.ts) ttl)

abbrev full_key : RedisTokenBucketRateLimit → String → String
full_key l key = String.◌++◌ l.key_prefix key

-- Keys stay apart under the prefix.
full_key-eq :
    (l : RedisTokenBucketRateLimit) (key k : String)
    → str_eq (full_key l key) (full_key l k) ≡ str_eq key k
full_key-eq l key k = ground (
  arith,
  eq_iff (full_key l key) (full_key l k),
  eq_iff key k,
  append_cancel_left l.key_prefix key k,
)

abbrev level : RedisTokenBucketRateLimit → Server → ℕ → Levels
level l db now k = level_of l.rate now (Dict.get (full_key l k) db)

record Inv (l : RedisTokenBucketRateLimit) (skew : ℕ) (db : Server) (now : ℕ) : Type 0 where
  limited : 0 < l.rate.requests_per_minute
  lasting : 60 ≤ l.ttl_seconds
  settled : (k : String) → Settled l skew now (Dict.get (full_key l k) db)

level-elapse :
    (l : RedisTokenBucketRateLimit) (skew now dt : ℕ) (o : Option Entry)
    → Settled l skew now o
    → level_of l.rate (now + dt) o ≡ elapse l.rate dt (level_of l.rate now o)
level-elapse l skew now dt none h = omega arith
level-elapse l skew now dt (some e) h =
    let later : now + dt - e.ts ≡ (now - e.ts) + dt = omega arith in rw later (omega arith)

abbrev pub perform :
    RedisTokenBucketRateLimit → Query → String → ℕ → ℕ → Server → RateLimitResult × Server
perform l allows key now server_now db = allow l key now server_now db
perform l previews key now server_now db = (preview l key now server_now db, db)

tokens_at :
    (l : RedisTokenBucketRateLimit) (skew now : ℕ) (db : Server) (key : String)
    → Inv l skew db now
    → script_tokens l.rate now (hmget (full_key l key) (now + skew) db) ≡ level l db now key
unfolding hmget
tokens_at l skew now db key v =
    level_by_entry l skew now (Dict.get (full_key l key) db) v.lasting (v.settled key)

perform-refines :
    (l : RedisTokenBucketRateLimit) (skew : ℕ) (q : Query) (key k : String) (now : ℕ) (db : Server)
    → Inv l skew db now
    → ((perform l q key now (now + skew) db).0.allowed ≡ has_token l.rate (level l db now key))
      × (level l (perform l q key now (now + skew) db).1 now k
          ≡ at_key key (after l.rate q) (level l db now) k)
unfolding allow preview
perform-refines l skew allows key k now db v =
    let t = tokens_at l skew now db key v in
    (
      grind (arith, t, v.limited),
      grind (arith, t, v.limited, get-put, full_key-eq l key k, eq_iff key k),
    )
perform-refines l skew previews key k now db v =
    let t = tokens_at l skew now db key v in
    (grind (arith, t, v.limited), grind (arith, eq_iff key k))

level-le :
    (l : RedisTokenBucketRateLimit) (now : ℕ) (o : Option Entry)
    → level_of l.rate now o ≤ capacity l.rate
level-le l now none = omega arith
level-le l now (some e) = omega arith

perform-Settled :
    (l : RedisTokenBucketRateLimit) (skew : ℕ) (q : Query) (key k : String) (now : ℕ) (db : Server)
    → Inv l skew db now
    → Settled l skew now (Dict.get (full_key l k) (perform l q key now (now + skew) db).1)
unfolding allow preview
perform-Settled l skew allows key k now db v = grind (
  arith,
  tokens_at l skew now db key v,
  level-le l now (Dict.get (full_key l key) db),
  v.settled k,
  get-put,
)
perform-Settled l skew previews key k now db v = v.settled k

later-Settled :
    (l : RedisTokenBucketRateLimit) (skew now dt : ℕ) (o : Option Entry)
    → Settled l skew now o
    → Settled l skew (now + dt) o
later-Settled l skew now dt none h = tt
later-Settled l skew now dt (some e) h = omega arith

-- The results of a run of calls, the first of them `dt` ticks after `now`, with the server's clock
-- `skew` ahead.
unfoldable pub run : RedisTokenBucketRateLimit → ℕ → ℕ → Server → List Call → List RateLimitResult
run l skew now db [] = []
run l skew now db (c ∷ cs) =
    let (result, db') = perform l c.query c.key (now + c.dt) (now + c.dt + skew) db in
    result ∷ run l skew (now + c.dt) db' cs

run-refines :
    (l : RedisTokenBucketRateLimit) (skew now : ℕ) (db : Server) (cs : List Call)
    → Inv l skew db now
    → allowed_of (run l skew now db cs) ≡ decisions l.rate (level l db now) cs
unfolding run decisions
run-refines l skew now db [] v = refl
run-refines l skew now db (c ∷ cs) v =
    let later = now + c.dt in
    let db' = (perform l c.query c.key later (later + skew) db).1 in
    let v' : Inv l skew db later = record {
      limited = v.limited;
      lasting = v.lasting;
      settled = λ k. later-Settled l skew now c.dt (Dict.get (full_key l k) db) (v.settled k);
    } in
    let v'' : Inv l skew db' later = record {
      limited = v.limited;
      lasting = v.lasting;
      settled = λ k. perform-Settled l skew c.query c.key k later db v';
    } in
    let risen : level l db later ≡ (λ k. elapse l.rate c.dt (level l db now k)) =
      fun_ext (λ k. level-elapse l skew now c.dt (Dict.get (full_key l k) db) (v.settled k)) in
    let moved : level l db' later ≡ at_key c.key (after l.rate c.query) (level l db later) =
      fun_ext (λ k. (perform-refines l skew c.query c.key k later db v').1) in
    let levels = moved ∙ ap (at_key c.key (after l.rate c.query)) risen in
    let heads =
      (perform-refines l skew c.query c.key c.key later db v').0
      ∙ ap (λ (f : Levels). has_token l.rate (f c.key)) risen in
    let tails = run-refines l skew later db' cs v'' ∙ (λ i. decisions l.rate (levels i) cs) in
    λ i. heads i ∷ tails i

-- From an empty database, with a positive limit, a time to live of a minute or more and clocks that
-- keep their distance and do not go back, the decisions of any run of calls are those of token
-- buckets that start full.
pub run-empty-refines :
    (l : RedisTokenBucketRateLimit) (skew now : ℕ) (cs : List Call)
    → 0 < l.rate.requests_per_minute
    → 60 ≤ l.ttl_seconds
    → allowed_of (run l skew now [] cs) ≡ decisions l.rate (full l.rate) cs
run-empty-refines l skew now cs h ttl =
    run-refines l skew now [] cs
      (record { limited = h; lasting = ttl; settled = λ k. rw get-nil tt })
    ∙ ap (λ (f : Levels). decisions l.rate f cs) (fun_ext (λ k. rw get-nil refl))

-- The two backends, each started empty with the same positive limit and, for Redis, a time to live of a
-- minute or more, let the same calls through, each by a clock of its own: the wall clock of the one
-- and the monotonic clock of the other may read anything at first, and Redis's own clock may be ahead
-- of the callers', if from call to call the same time passes on all of them, and none goes back.
pub run-eq-memory :
    (l : RedisTokenBucketRateLimit) (skew wall monotonic : ℕ) (cs : List Call)
    → 0 < l.rate.requests_per_minute
    → 60 ≤ l.ttl_seconds
    → allowed_of (run l skew wall [] cs)
      ≡ allowed_of (Refines.run monotonic (Memory.init l.rate) cs)
run-eq-memory l skew wall monotonic cs h ttl =
    run-empty-refines l skew wall cs h ttl ∙ sym (Refines.run-init-refines l.rate monotonic cs h)
