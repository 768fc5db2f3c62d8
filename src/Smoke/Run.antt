-- ===== src/Smoke/Run.antt =====
-- scripts/smoke_provider.py: `run_smoke`. Making and starting the application from its settings is an
-- argument; so is the name of the temporary database.
use Prim.Native.String
use ai_serving_backend.Prelude.{
  ℕ, String, Bool, not, ◌&&◌, Option, none, some, List, [], ◌∷◌, ◌++◌, map, str_eq, filter, all,
  is_empty, if◌then◌else◌, Result, ok, raise,
}
use ai_serving_backend.Json.{PyError}
use ai_serving_backend.Smoke.Plans.{
  Args, ProviderPlan, KeySettings, SmokeSettings, clamp_max_tokens, build_plans,
  build_smoke_settings,
}
use ai_serving_backend.Smoke.Checks.{run_provider_checks}
use ai_serving_backend.Smoke.Answers.{CheckResult, Service, Builtins}
use ai_serving_backend.Smoke.Report.{print_plan, print_results}

abbrev pub warning_lines : Option String → List String
warning_lines none = []
warning_lines (some w) = w ∷ []

abbrev skip_line : ProviderPlan → String
skip_line plan =
    String.◌++◌ "SKIP " (String.◌++◌ plan.provider ": no API key found in environment.")

abbrev pub runnable : List ProviderPlan → List ProviderPlan
runnable plans = filter (λ p. p.has_key) plans

abbrev pub skipped : List ProviderPlan → List ProviderPlan
skipped plans = filter (λ p. not p.has_key) plans

abbrev pub passed : CheckResult → Bool
passed r = str_eq r.status "PASS"

-- 0 if results and all(...) else 1, unless printing them raised
abbrev pub exit_code : Option PyError → List CheckResult → Result PyError ℕ
exit_code (some e) results = raise e
exit_code none results = ok (if not (is_empty results) && all passed results then 0 else 1)

module _ (py : Builtins) (str_decimal : ℕ → String) (service : Service) where
  open service use {App}

  pub record Run : Type 0 where
    pub printed : List String
    pub exit : Result PyError ℕ
    -- the application as it is left, if one was made
    pub app : Option App

  unfoldable pub check_plans : List ProviderPlan → String → App → List CheckResult × App
  unfolding run_provider_checks
  check_plans [] prompt app = ([], app)
  check_plans (plan ∷ plans) prompt app =
      let (results, app') = run_provider_checks py service plan prompt app in
      let (more, app'') = check_plans plans prompt app' in (results ++ more, app'')

  abbrev quiet : List String → Run
  quiet lines = record { printed = lines; exit = ok 0; app = none }

  abbrev reported : List String → List CheckResult × App → Run
  reported before (results, app) =
      let (lines, failure) = print_results str_decimal results in
      record { printed = before ++ lines; exit = exit_code failure results; app = some app }

  unfoldable pub run_smoke : Args → KeySettings → String → (SmokeSettings → App) → Run
  unfolding clamp_max_tokens build_plans print_plan build_smoke_settings check_plans print_results
  run_smoke args keys database_url create_app =
      let (max_tokens, warning) = clamp_max_tokens args.max_tokens in
      let plans = build_plans args keys max_tokens in
      let before = warning_lines warning ++ map skip_line (skipped plans) in
      if not args.run
      then quiet (
          warning_lines warning
          ++ ("DRY-RUN only. No provider clients are constructed and no network calls are made."
              ∷ print_plan plans))
      else if is_empty (runnable plans)
      then quiet (before ++ ("No selected providers have API keys; nothing to run." ∷ []))
      else reported before (
          check_plans (runnable plans) args.prompt
            (create_app (build_smoke_settings args database_url)))
