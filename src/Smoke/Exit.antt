-- ===== src/Smoke/Exit.antt =====
-- scripts/smoke_provider.py: the exit code of `run_smoke`.
use ai_serving_backend.Prelude.{
  ℕ, String, ◌≡◌, refl, inl, inr, Bool, true, false, Option, none, some, List, [], ◌∷◌, ◌++◌, all,
  arith, Bool-cases, Result, ok, raise, eq_iff, is_empty,
}
use ai_serving_backend.Json.{PyError}
use ai_serving_backend.Smoke.Plans.{
  Args, ProviderPlan, KeySettings, SmokeSettings, clamp_max_tokens, build_plans,
  build_smoke_settings,
}
use ai_serving_backend.Smoke.Checks.{run_check, run_provider_checks, caught}
use ai_serving_backend.Smoke.Answers.{
  CheckResult, Service, Builtins, new_result, Response, chat_payload,
}
use ai_serving_backend.Smoke.Run.{runnable, passed, check_plans, run_smoke, exit_code}
use ai_serving_backend.Smoke.Verdict.{
  and-eq, fail_ne_pass, ended_step, StreamPassed, stream_result-passes,
}

-- The check came to an end and passed.
abbrev pub Passed : Result PyError CheckResult → Type 0
Passed outcome = (result : CheckResult) × (outcome ≡ ok result) × (result.status ≡ "PASS")

all-append :
    (p : CheckResult → Bool) (xs ys : List CheckResult)
    → all p (xs ++ ys) ≡ true
    → (all p xs ≡ true) × (all p ys ≡ true)
all-append p [] ys h = (refl, h)
all-append p (x ∷ xs) ys h =
    let (px, more) = and-eq (p x) (all p (xs ++ ys)) h in
    let (pxs, pys) = all-append p xs ys more in (rw (px, pxs) refl, pys)

module _ (py : Builtins) (str_decimal : ℕ → String) (service : Service) where
  open service use {App}

  -- For each plan in turn, both checks pass, each on the application as the one before has left it; and
  -- the second has seen what a passed check of a stream sees.
  abbrev pub AllPassed : List ProviderPlan → String → App → Type 0
  AllPassed [] prompt app = Unit
  AllPassed (plan ∷ plans) prompt app =
      let (first, app') = run_check py service false plan prompt app in
      let (response, app'') = service.post (chat_payload plan prompt true) app' in
      Passed first
      × ((r : Response) × (response ≡ ok r) × StreamPassed py plan r (service.audit_logs app''))
      × AllPassed plans prompt app''

  caught-Passed :
      (stream : Bool) (plan : ProviderPlan) (outcome : Result PyError CheckResult)
      → passed (caught py service stream plan outcome) ≡ true
      → Passed outcome
  unfolding new_result
  caught-Passed stream plan (ok result) h = (result, refl, (eq_iff result.status "PASS").0 h)
  caught-Passed stream plan (raise e) h = absurd (fail_ne_pass ((eq_iff "FAIL" "PASS").0 h))

  run_check-StreamPassed :
      (plan : ProviderPlan) (prompt : String) (app : App)
      → Passed (run_check py service true plan prompt app).0
      → let (response, app') = service.post (chat_payload plan prompt true) app in
        (r : Response) × (response ≡ ok r) × StreamPassed py plan r (service.audit_logs app')
  unfolding run_check
  run_check-StreamPassed plan prompt app (result, ended, status) =
      let (r, answered, checked) =
        ended_step (service.post (chat_payload plan prompt true) app).0 _ ended in
      (r, answered, stream_result-passes py plan r _ result checked status)

  check_plans-AllPassed :
      (plans : List ProviderPlan) (prompt : String) (app : App)
      → all passed (check_plans py str_decimal service plans prompt app).0 ≡ true
      → AllPassed plans prompt app
  unfolding check_plans run_provider_checks
  check_plans-AllPassed [] prompt app h = tt
  check_plans-AllPassed (plan ∷ plans) prompt app h =
      let one = run_check py service false plan prompt app in
      let two = run_check py service true plan prompt one.1 in
      let (first, h') = and-eq (passed (caught py service false plan one.0)) _ h in
      let (second, more) = and-eq (passed (caught py service true plan two.0)) _ h' in
      (
        caught-Passed false plan one.0 first,
        run_check-StreamPassed plan prompt one.1 (caught-Passed true plan two.0 second),
        check_plans-AllPassed plans prompt _ more,
      )

  exit_code-0 :
      (failure : Option PyError) (results : List CheckResult)
      → exit_code failure results ≡ ok 0
      → all passed results ≡ true
  exit_code-0 (some e) results h = cc
  exit_code-0 none results h = elim (Bool-cases (all passed results)) [
    | inl it ↦ it
    | inr other ↦ ground arith
  ]

  -- When the script is told to run, a selected provider has a key, and the exit code is 0, every plan
  -- with a key has passed both checks: the check of its stream has seen a 200 whose events can all be
  -- read, with a usage, some content and the end marker, and exactly one audit row with the response's request
  -- id, which is a stream of the plan's provider and model, with tokens.
  pub run_smoke-passed :
      (args : Args) (keys : KeySettings) (database_url : String) (create_app : SmokeSettings → App)
      → args.run ≡ true
      → is_empty (runnable (build_plans args keys (clamp_max_tokens args.max_tokens).0)) ≡ false
      → (run_smoke py str_decimal service args keys database_url create_app).exit ≡ ok 0
      → AllPassed
          (runnable (build_plans args keys (clamp_max_tokens args.max_tokens).0))
          args.prompt
          (create_app (build_smoke_settings args database_url))
  unfolding run_smoke
  run_smoke-passed args keys database_url create_app r n h =
      check_plans-AllPassed _ args.prompt _ (exit_code-0 _ _ (rw (r, n) at h))
