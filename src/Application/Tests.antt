-- ===== src/Application/Tests.antt =====
-- An application with two streams for a key.
use ai_serving_backend.Prelude.{String, ◌≤◌, ◌≡◌, refl, true, List, [], ◌∷◌, ok}
use ai_serving_backend.Settings.Load.{load, settings_of}
use ai_serving_backend.Settings.{
  discard_raw_api_keys, Settings, list_field, int_at_least, auth_mode_field, policy_mode_field,
}
use ai_serving_backend.Settings.Tests.{some_given}
use ai_serving_backend.Streaming.History.{Call, acquires, run, live}
use ai_serving_backend.Auth.{from_plaintext}
use ai_serving_backend.RateLimit.Enforce.{memory}
use ai_serving_backend.RateLimit.Memory.{init}
use ai_serving_backend.Application.{App, create_app, assemble}
use ai_serving_backend.Application.Limits.{create_app-streams_le}

abbrev plain : String → String
plain key = key

abbrev settings : Settings
settings = settings_of some_given

abbrev app : App
app =
    assemble (discard_raw_api_keys settings) (from_plaintext plain settings.api_keys)
      (memory (init (record { requests_per_minute = 60; hz = 1 })))
      (memory (init (record { requests_per_minute = 30; hz = 1 })))

accepted : load some_given ≡ ok settings
unfolding load list_field int_at_least auth_mode_field policy_mode_field
accepted = refl

made : create_app plain 1 true true settings ≡ ok app
unfolding create_app settings_of list_field int_at_least auth_mode_field policy_mode_field
made = refl

abbrev three : List Call
three = acquires "k" ∷ acquires "k" ∷ acquires "k" ∷ []

create_app-streams_le_example :
    (live (run (record { limiter = app.stream_limiter; leases = [] }) three).leases "k"
      ≤ settings.max_concurrent_streams_per_key)
    × (1 ≤ settings.max_concurrent_streams_per_key)
create_app-streams_le_example =
    create_app-streams_le plain 1 true true some_given settings app three "k" accepted made
