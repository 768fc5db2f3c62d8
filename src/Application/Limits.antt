-- ===== src/Application/Limits.antt =====
-- app/main.py: what the bounds of the settings make sure of in the application.
use ai_serving_backend.Prelude.{
  ℕ, ◌+◌, ◌*◌, ◌≤◌, ◌<◌, String, ◌≡◌, refl, sym, ap, ◌∙◌, inl, inr, Bool, Option, none, some, List,
  [], arith, Result, ok, raise, ◌>>=◌,
}
use ai_serving_backend.Errors.{Exception}
use ai_serving_backend.Auth.{from_plaintext}
use ai_serving_backend.Prelude.Int.{ℤ}
use ai_serving_backend.RateLimit.Memory.{InMemoryRateLimit, init as init_memory}
use ai_serving_backend.Settings.{Settings, Given, discard_raw_api_keys}
use ai_serving_backend.Settings.Load.{load}
use ai_serving_backend.Settings.Bounds.{IsRead, load-IsLoaded}
use ai_serving_backend.Streaming.{init}
use ai_serving_backend.Streaming.History.{Call, run, live, live-le-max}
use ai_serving_backend.RateLimit.Spec.{Call as RateCall, granted, duration}
use ai_serving_backend.RateLimit.Memory.Refines.{run as run_memory, allowed_of, run-granted-le}
use ai_serving_backend.RateLimit.Enforce.{
  AnyBackend, memory, build_rate_limit_backend, build_rate_limit_backend-memory,
}
use ai_serving_backend.Application.{App, create_app, assemble, limit_settings}

two_binds :
    (m n : Result Exception AnyBackend) (f : AnyBackend → AnyBackend → App) {app : App}
    → (m >>= λ a. n >>= λ b. ok (f a b)) ≡ ok app
    → (a : AnyBackend) × (b : AnyBackend) × (m ≡ ok a) × (n ≡ ok b) × (f a b ≡ app)
two_binds (ok a) (ok b) f h = (a, b, refl, refl, cc)
two_binds (ok a) (raise e) f h = cc
two_binds (raise e) n f h = cc

IsRead-least :
    (least default : ℕ) (given : Option ℤ) (n : ℕ)
    → least ≤ default
    → IsRead least default given n
    → least ≤ n
IsRead-least least default given n h (inl (_, e)) = omega (arith, e)
IsRead-least least default given n h (inr (_, le)) = le

module _ (sha256 : String → String) (hz : ℕ) (connects connects_again : Bool) where
  -- What create_app is made of, when it returns.
  create_app-parts :
      (s : Settings) (app : App)
      → create_app sha256 hz connects connects_again s ≡ ok app
      → let kept = discard_raw_api_keys s in
        (l : AnyBackend) × (p : AnyBackend) × (build_rate_limit_backend hz connects
            (limit_settings kept)
            none
            none
          ≡ ok l)
        × (build_rate_limit_backend hz connects_again
              (limit_settings kept)
              (some kept.pre_auth_rpm_per_ip)
              (some "preauth:")
            ≡ ok p)
        × (assemble kept (from_plaintext sha256 s.api_keys) l p ≡ app)
  unfolding create_app
  create_app-parts s app h =
      two_binds _ _ (assemble (discard_raw_api_keys s) (from_plaintext sha256 s.api_keys)) h

  create_app-stream_limiter :
      (s : Settings) (app : App)
      → create_app sha256 hz connects connects_again s ≡ ok app
      → app.stream_limiter ≡ init s.max_concurrent_streams_per_key
  unfolding assemble discard_raw_api_keys
  create_app-stream_limiter s app h =
      let (l, p, _, _, made) = create_app-parts s app h in ap (λ a. a.stream_limiter) (sym made)

  -- In an application that is made from accepted settings, after any history of streams that are begun
  -- and given back, no key has more live streams than the settings allow; and that is at least one.
  pub create_app-streams_le :
      (g : Given) (s : Settings) (app : App) (cs : List Call) (k : String)
      → load g ≡ ok s
      → create_app sha256 hz connects connects_again s ≡ ok app
      → (live (run (record { limiter = app.stream_limiter; leases = [] }) cs).leases k
          ≤ s.max_concurrent_streams_per_key)
        × (1 ≤ s.max_concurrent_streams_per_key)
  create_app-streams_le g s app cs k accepted made =
      let least =
        IsRead-least 1 4 _ _ (omega arith)
          (load-IsLoaded g s accepted).max_concurrent_streams_per_key in
      (
        rw (create_app-stream_limiter s app made)
            (live-le-max s.max_concurrent_streams_per_key cs k least),
        least,
      )

  create_app-rate_limiter :
      (s : Settings) (app : App) (m : InMemoryRateLimit)
      → create_app sha256 hz connects connects_again s ≡ ok app
      → app.rate_limiter ≡ memory m
      → m ≡ init_memory (record { requests_per_minute = s.rate_limit_rpm; hz = hz })
  unfolding assemble discard_raw_api_keys
  create_app-rate_limiter s app m h e =
      let (l, p, built, _, made) = create_app-parts s app h in
      let same : l ≡ memory m = ap (λ a. a.rate_limiter) made ∙ e in
      build_rate_limit_backend-memory hz connects (limit_settings s) none none m
        (built ∙ ap ok same)

  -- In an application with an in-memory backend and a positive limit in its settings, the requests of
  -- one key that are let through, in any run of calls, number at most that limit plus what the elapsed
  -- time refills.
  pub create_app-granted_le :
      (s : Settings) (app : App) (m : InMemoryRateLimit) (now : ℕ) (cs : List RateCall) (k : String)
      → create_app sha256 hz connects connects_again s ≡ ok app
      → app.rate_limiter ≡ memory m
      → 0 < s.rate_limit_rpm
      → granted k cs (allowed_of (run_memory now m cs)) * (60 * hz)
        ≤ s.rate_limit_rpm * (60 * hz) + duration cs * s.rate_limit_rpm
  create_app-granted_le s app m now cs k h e positive = rw (create_app-rate_limiter s app m h e) (
      run-granted-le (record { requests_per_minute = s.rate_limit_rpm; hz = hz }) now cs k positive)
