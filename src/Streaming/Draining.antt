-- ===== src/Streaming/Draining.antt =====
-- app/streaming.py: a history after which every lease is given back.
use ai_serving_backend.Prelude.{
  ℕ, zero, suc, ◌<◌, String, ◌≡◌, refl, ap, ◌∙◌, true, some, List, [], ◌∷◌, ◌++◌, arith, length,
  length-append, get_elem?, set, Option-cases, inl, inr,
}
use mathlib.Core.List.{append-nil}
use ai_serving_backend.Streaming.{StreamLease, StreamConcurrencyLimiter, acquire, release}
use ai_serving_backend.Streaming.History.{
  World, Call, releases, start, step, run, live, acquire-refuses_iff_full,
}

-- The calls that release the leases from the `i`-th on, one after the other.
unfoldable pub release_from : ℕ → ℕ → List Call
release_from i zero = []
release_from i (suc n) = releases i ∷ release_from (suc i) n

run-append : (w : World) (cs ds : List Call) → run w (cs ++ ds) ≡ run (run w cs) ds
unfolding run
run-append w [] ds = refl
run-append w (c ∷ cs) ds = run-append (step w c) cs ds

module _ (lease lease' : StreamLease) (rest : List StreamLease) where
  get_elem?-middle :
      (gone : List StreamLease) → get_elem? (gone ++ lease ∷ rest) (length gone) ≡ some lease
  get_elem?-middle [] = refl
  get_elem?-middle (g ∷ gone) = get_elem?-middle gone

  set-middle :
      (gone : List StreamLease)
      → set (gone ++ lease ∷ rest) (length gone) lease' ≡ (gone ++ lease' ∷ []) ++ rest
  set-middle [] = refl
  set-middle (g ∷ gone) = ap (◌∷◌ g) (set-middle gone)

released-release :
    (lease : StreamLease) (l : StreamConcurrencyLimiter) → (release lease l).0.released ≡ true
unfolding release
released-release lease l = ground arith

live-append_released :
    (gone : List StreamLease) (lease : StreamLease) (k : String)
    → lease.released ≡ true
    → live (gone ++ lease ∷ []) k ≡ live gone k
unfolding live
live-append_released [] lease k e = rw e refl
live-append_released (g ∷ gone) lease k e = ground (arith, live-append_released gone lease k e)

step-releases :
    (gone rest : List StreamLease) (lease : StreamLease) (l : StreamConcurrencyLimiter)
    → step (record { limiter = l; leases = gone ++ lease ∷ rest }) (releases (length gone))
      ≡ record {
        limiter = (release lease l).1;
        leases = (gone ++ (release lease l).0 ∷ []) ++ rest;
      }
unfolding step
step-releases gone rest lease l =
    rw (get_elem?-middle lease lease rest gone, set-middle lease (release lease l).0 rest gone) refl

-- Once the leases before it are given back, the rest are given back one by one.
run-release_from :
    (gone rest : List StreamLease) (l : StreamConcurrencyLimiter)
    → ((k : String) → live gone k ≡ 0)
    → (k : String)
    → live
        (run
          (record { limiter = l; leases = gone ++ rest })
          (release_from (length gone) (length rest))).leases
        k
      ≡ 0
unfolding run release_from
run-release_from gone [] l h k = rw (append-nil gone) (h k)
run-release_from gone (lease ∷ rest) l h k =
    let lease' = (release lease l).0 in
    let more : length (gone ++ lease' ∷ []) ≡ suc (length gone) =
      omega (arith, length-append gone (lease' ∷ [])) in
    ap (λ w. live (run w (release_from (suc (length gone)) (length rest))).leases k)
      (step-releases gone rest lease l)
    ∙ rw (← more) (
        run-release_from (gone ++ lease' ∷ []) rest (release lease l).1
          (λ j. live-append_released gone lease' j (released-release lease l) ∙ h j) k)

no_lease : (k : String) → live [] k ≡ 0
unfolding live
no_lease k = refl

-- However many leases are live after a history from a fresh limiter with a positive limit, once each of
-- them is given back, a stream of any key is let through.
pub acquire-after_draining :
    (max : ℕ) (cs : List Call) (k : String)
    → 0 < max
    → let w = run (start max) cs in
      (lease : StreamLease) × ((acquire k (run w (release_from 0 (length w.leases))).limiter).0
        ≡ some lease)
acquire-after_draining max cs k h =
    let w = run (start max) cs in
    let ds = release_from 0 (length w.leases) in
    let joined = run-append (start max) cs ds in
    let drained : live (run w ds).leases k ≡ 0 =
      run-release_from [] w.leases w.limiter (λ j. no_lease j) k in
    elim (Option-cases (acquire k (run w ds).limiter).0) [
      | inr granted ↦ granted
      | inl refused ↦
          let full = (acquire-refuses_iff_full max (cs ++ ds) k h).0 (rw joined refused) in
          absurd (omega (arith, drained, rw joined at full))
    ]
