-- ===== src/Streaming/Invariant.antt =====
-- The limiter's books against the number of live leases of each key.
use ai_serving_backend.Prelude.{
  ◌↔◌, ℕ, ◌+◌, ◌-◌, ◌<◌, String, ◌≡◌, false, Option, none, some, arith, str_eq, eq_iff,
  if◌then◌else◌,
}
use ai_serving_backend.Prelude.Dict
use ai_serving_backend.Prelude.Dict.{Dict, dict_laws, get-put, get-pop}
use ai_serving_backend.Streaming.{
  Semaphore, StreamLease, StreamConcurrencyLimiter, init, acquire, release,
}

-- The entries of one key, when `n` of its leases are live: no entry, or a semaphore whose free
-- slots and live leases add up to the limit.
abbrev pub Tallies : ℕ → Option Semaphore → Option ℕ → ℕ → Type 0
Tallies max none none n = n ≡ 0
Tallies max (some s) (some a) n = (s.bound ≡ max) × (s.value + a ≡ max) × (n ≡ a) × (0 < a)
Tallies max _ _ n = ⊥

abbrev pub TalliesAt : StreamConcurrencyLimiter → (String → ℕ) → String → Type 0
TalliesAt l live k =
    Tallies l.max_concurrent_streams (Dict.get k l.semaphores) (Dict.get k l.active) (live k)

pub record Inv (l : StreamConcurrencyLimiter) (live : String → ℕ) : Type 0 where
  pub positive : 0 < l.max_concurrent_streams
  pub at : (k : String) → TalliesAt l live k

abbrev pub bump : String → (String → ℕ) → String → ℕ
bump key live k = if str_eq key k then live k + 1 else live k

abbrev pub lower : String → (String → ℕ) → String → ℕ
lower key live k = if str_eq key k then live k - 1 else live k

pub init-Inv : (max : ℕ) → 0 < max → Inv (init max) (λ k. 0)
unfolding init
init-Inv max h = record { positive = h; at = λ k. simp dict_laws (omega arith) }

-- The live leases after a call of `acquire`.
abbrev pub acquired : String → Option StreamLease → (String → ℕ) → String → ℕ
acquired key none live = live
acquired key (some _) live = bump key live

acquire-at :
    (key k : String) (l : StreamConcurrencyLimiter) (live : String → ℕ)
    → 0 < l.max_concurrent_streams
    → TalliesAt l live k
    → TalliesAt l live key
    → TalliesAt (acquire key l).1 (acquired key (acquire key l).0 live) k
unfolding acquire
acquire-at key k l live p h hk = grind (arith, get-put, eq_iff key k)

release-at :
    (lease : StreamLease) (k : String) (l : StreamConcurrencyLimiter) (live : String → ℕ)
    → lease.released ≡ false
    → TalliesAt l live k
    → TalliesAt l live lease.key
    → TalliesAt (release lease l).1 (lower lease.key live) k
unfolding release
release-at lease k l live r h hk = grind (arith, get-put, get-pop, eq_iff lease.key k)

-- `acquire` never changes the limit.
pub max-acquire :
    (key : String) (l : StreamConcurrencyLimiter)
    → (acquire key l).1.max_concurrent_streams ≡ l.max_concurrent_streams
unfolding acquire
max-acquire key l = ground arith

pub max-release :
    (lease : StreamLease) (l : StreamConcurrencyLimiter)
    → (release lease l).1.max_concurrent_streams ≡ l.max_concurrent_streams
unfolding release
max-release lease l = ground arith

pub acquire-Inv :
    (key : String) (l : StreamConcurrencyLimiter) (live : String → ℕ)
    → Inv l live
    → Inv (acquire key l).1 (acquired key (acquire key l).0 live)
acquire-Inv key l live v = record {
  positive = rw max-acquire v.positive;
  at = λ k. acquire-at key k l live v.positive (v.at k) (v.at key);
}

pub release-Inv :
    (lease : StreamLease) (l : StreamConcurrencyLimiter) (live : String → ℕ)
    → lease.released ≡ false
    → Inv l live
    → Inv (release lease l).1 (lower lease.key live)
release-Inv lease l live r v = record {
  positive = rw max-release v.positive;
  at = λ k. release-at lease k l live r (v.at k) (v.at lease.key);
}

-- A stream is refused exactly when the key already has as many live leases as the limit allows.
pub acquire-refuses_iff :
    (key : String) (l : StreamConcurrencyLimiter) (live : String → ℕ)
    → Inv l live
    → ((acquire key l).0 ≡ none) ↔ (live key ≡ l.max_concurrent_streams)
unfolding acquire
acquire-refuses_iff key l live v = ground (arith, v.at key, v.positive)
