-- ===== src/Smoke/Checks.antt =====
-- scripts/smoke_provider.py: the two checks of a provider. Outside the script, and so arguments: the
-- application with its HTTP client (`Service` of Answers), and `json.loads`, `int` of a text and `repr`
-- (its `Builtins`).
use Prim.Native.String
use ai_serving_backend.Prelude.{
  ℕ, String, Bool, true, false, not, ◌&&◌, some, List, [], ◌∷◌, str_eq, ltb, ◌==◌, if◌then◌else◌,
  Result, ok, raise, ◌>>=◌, is_empty,
}
use ai_serving_backend.Prelude.Text.Lines.{startswith}
use ai_serving_backend.Db.{AuditLog}
use ai_serving_backend.Json.{
  Json, bool, num, other_num, text, PyError, py_error, type_name, truthy, subscript, first,
}
use ai_serving_backend.Smoke.Plans.{ProviderPlan}
use ai_serving_backend.Smoke.Sse.{SseBody, parse_sse_body}
use ai_serving_backend.Smoke.Answers.{
  CheckResult, new_result, chat_payload, Response, Service, Builtins, fetch_audit, validate_audit,
  request_id_of, join_from, concluded,
}

module _ (py : Builtins) where
  -- int(value)
  unfoldable pub int_of : Json → Result PyError ℕ
  unfolding py_error type_name
  int_of (num n) = ok n
  int_of (other_num z n) = ok n
  int_of (bool b) = ok (if b then 1 else 0)
  int_of (text t) = py.int_of_text t
  int_of v = py_error "TypeError" (
      String.◌++◌ "int() argument must be a string, a bytes-like object or a real number, not '"
        (String.◌++◌ (type_name v) "'"))

  -- bool(content) and int(usage["total_tokens"]) > 0
  unfoldable pub response_ok : Json → Json → Result PyError Bool
  unfolding truthy subscript int_of
  response_ok content usage =
      if truthy content
      then (do total ← subscript "total_tokens" usage; n ← int_of total; ok (ltb 0 n))
      else ok false

  -- the result with the status of the response
  abbrev pub answered : ProviderPlan → String → Response → CheckResult
  answered plan mode r = record (new_result plan.provider mode) { http_status = some r.status_code }

  abbrev pub unless_refused :
      ProviderPlan → String → Response → Result PyError CheckResult → Result PyError CheckResult
  unless_refused plan mode r checked =
      if not (r.status_code == 200)
      then ok (record (answered plan mode r) { error = r.body })
      else checked

  -- run_non_stream_check, after the test of the status
  unfoldable pub read_answer : ProviderPlan → Response → List AuditLog → Result PyError CheckResult
  unfolding new_result subscript first response_ok fetch_audit validate_audit
  read_answer plan r rows = do
    body ← r.json
    choices ← subscript "choices" body
    choice ← first choices
    message ← subscript "message" choice
    content ← subscript "content" message
    usage ← subscript "usage" body
    request_ok ← response_ok content usage
    request_id ← request_id_of r
    audit ← fetch_audit rows request_id
    ok (
        concluded request_ok "Response content was empty or usage.total_tokens was not positive."
          content (validate_audit audit plan false (answered plan "non-stream" r)))

  unfoldable pub non_stream_result :
      ProviderPlan → Response → List AuditLog → Result PyError CheckResult
  unfolding read_answer
  non_stream_result plan r rows = unless_refused plan "non-stream" r (read_answer plan r rows)

  abbrev pub stream_ok : String → SseBody → String → Bool
  stream_ok content_type seen content =
      startswith content_type "text/event-stream"
      && not (is_empty seen.chunks)
      && not (str_eq content "")
      && seen.saw_done
      && seen.saw_usage
      && is_empty seen.parse_errors

  abbrev stream_error : String → SseBody → String
  stream_error content_type seen =
      String.◌++◌ "Stream did not contain valid content chunks and [DONE]." (
        String.◌++◌ (if seen.saw_usage then "" else " usage chunk absent.")
          (String.◌++◌ " " (py.describe content_type seen.parse_errors)))

  -- run_stream_check, after the test of the status
  unfoldable pub read_stream : ProviderPlan → Response → List AuditLog → Result PyError CheckResult
  unfolding new_result parse_sse_body join_from fetch_audit validate_audit
  read_stream plan r rows = do
    seen ← parse_sse_body py.loads r.body
    content ← join_from 0 seen.chunks
    request_id ← request_id_of r
    audit ← fetch_audit rows request_id
    ok (
        concluded (stream_ok r.content_type seen content) (stream_error r.content_type seen)
          (text content) (validate_audit audit plan true (answered plan "stream" r)))

  unfoldable pub stream_result :
      ProviderPlan → Response → List AuditLog → Result PyError CheckResult
  unfolding read_stream
  stream_result plan r rows = unless_refused plan "stream" r (read_stream plan r rows)

  module _ (service : Service) where
    open service use {App, post, audit_logs}

    -- run_non_stream_check, and run_stream_check
    unfoldable pub run_check : Bool → ProviderPlan → String → App → Result PyError CheckResult × App
    unfolding chat_payload non_stream_result stream_result
    run_check stream plan prompt app =
        let (response, app') = post (chat_payload plan prompt stream) app in
        let after = if stream then stream_result plan else non_stream_result plan in
        (response >>= (λ r. after r (audit_logs app')), app')

    abbrev mode_name : Bool → String
    mode_name true = "stream"
    mode_name false = "non-stream"

    -- an exception of a check is a failed result
    abbrev pub caught : Bool → ProviderPlan → Result PyError CheckResult → CheckResult
    caught stream plan (ok result) = result
    caught stream plan (raise e) = record (new_result plan.provider (mode_name stream)) {
      error = String.◌++◌ e.class_name (String.◌++◌ ": " e.message);
    }

    unfoldable pub run_provider_checks : ProviderPlan → String → App → List CheckResult × App
    unfolding run_check new_result
    run_provider_checks plan prompt app =
        let (first_outcome, app') = run_check false plan prompt app in
        let (second_outcome, app'') = run_check true plan prompt app' in
        (caught false plan first_outcome ∷ caught true plan second_outcome ∷ [], app'')
