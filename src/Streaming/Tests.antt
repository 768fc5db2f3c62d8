-- ===== src/Streaming/Tests.antt =====
-- Runs of the limiter, and its theorems at one history.
use ai_serving_backend.Prelude.{◌≤◌, ◌≡◌, ◌↔◌, refl, none, some, length, List, [], ◌∷◌, arith}
use ai_serving_backend.Prelude.Dict
use ai_serving_backend.Streaming.{StreamLease, acquire, release}
use ai_serving_backend.Streaming.History.{
  Call, acquires, releases, run, start, live, live-le-max, acquire-refuses_iff_full,
  run-keeps_no_idle_key,
}
use ai_serving_backend.Streaming.Draining.{release_from, acquire-after_draining}

-- two streams of "a" against a limit of two, a third refused, one of "b", the first released twice
abbrev busy : List Call
busy = acquires "a" ∷ acquires "a" ∷ acquires "a" ∷ acquires "b" ∷ releases 0 ∷ releases 0 ∷ []

live-busy : live (run (start 2) busy).leases "a" ≡ 1
unfolding live run acquire release Dict.get Dict.put Dict.pop ai_serving_backend.Streaming.init
live-busy = refl

live-le-max_example : live (run (start 2) busy).leases "a" ≤ 2
live-le-max_example = live-le-max 2 busy "a" (omega arith)

acquire-refuses_iff_full_example :
    ((acquire "a" (run (start 2) busy).limiter).0 ≡ none)
    ↔ (live (run (start 2) busy).leases "a" ≡ 2)
acquire-refuses_iff_full_example = acquire-refuses_iff_full 2 busy "a" (omega arith)

run-keeps_no_idle_key_example :
    let w = run (start 2) (acquires "a" ∷ releases 0 ∷ []) in
    ((live w.leases "a" ≡ 0) ↔ (Dict.get "a" w.limiter.semaphores ≡ none))
    × ((live w.leases "a" ≡ 0) ↔ (Dict.get "a" w.limiter.active ≡ none))
run-keeps_no_idle_key_example =
    run-keeps_no_idle_key 2 (acquires "a" ∷ releases 0 ∷ []) "a" (omega arith)

acquire-after_draining_example :
    let w = run (start 2) busy in
    (lease : StreamLease) × ((acquire "a" (run w (release_from 0 (length w.leases))).limiter).0
      ≡ some lease)
acquire-after_draining_example = acquire-after_draining 2 busy "a" (omega arith)
