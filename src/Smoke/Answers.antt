-- ===== src/Smoke/Answers.antt =====
-- scripts/smoke_provider.py: requests, responses and results, and what the audit table must say.
use Prim.Native.String
use ai_serving_backend.Prelude.{
  ℕ, suc, String, Bool, true, false, not, ◌&&◌, Option, none, some, List, [], ◌∷◌, str_eq, ltb,
  if◌then◌else◌, Result, ok, raise, ◌>>=◌, filter,
}
use ai_serving_backend.Prelude.Text.{str_nat}
use ai_serving_backend.Db.{AuditLog}
use ai_serving_backend.Json.{Json, text, PyError, py_error, type_name}
use ai_serving_backend.Smoke.Plans.{ProviderPlan}

-- a field is none where the source has "-"
pub record CheckResult : Type 0 where
  pub provider : String
  pub mode : String
  pub http_status : Option ℕ
  pub prompt_tokens : Option ℕ
  pub completion_tokens : Option ℕ
  pub total_tokens : Option ℕ
  pub cost_usd : Option ℕ
  pub audit_status : String
  pub status : String
  pub text : Json
  pub error : String

-- CheckResult(provider=..., mode=...)
unfoldable pub new_result : String → String → CheckResult
new_result provider mode = record {
  provider = provider;
  mode = mode;
  http_status = none;
  prompt_tokens = none;
  completion_tokens = none;
  total_tokens = none;
  cost_usd = none;
  audit_status = "missing";
  status = "FAIL";
  text = Json.text "";
  error = "";
}

-- the body of the request: one message of the user
pub record ChatPayload : Type 0 where
  pub model : String
  pub prompt : String
  pub stream : Bool
  pub max_tokens : ℕ

unfoldable pub chat_payload : ProviderPlan → String → Bool → ChatPayload
chat_payload plan prompt stream = record {
  model = plan.model;
  prompt = prompt;
  stream = stream;
  max_tokens = plan.max_tokens;
}

pub record Response : Type 0 where
  pub status_code : ℕ
  pub body : String
  pub json : Result PyError Json
  pub request_id : Option String
  pub content_type : String

-- the application: what a request gives and leaves, and the rows of its audit table
pub record Service : Type 1 where
  pub App : Type 0
  pub post : ChatPayload → App → Result PyError Response × App
  pub audit_logs : App → List AuditLog

pub record Builtins : Type 0 where
  pub loads : String → Result String Json
  -- int(text); a negative number counts as 0
  pub int_of_text : String → Result PyError ℕ
  -- content-type={content_type!r}; parse_errors={parse_errors}
  pub describe : String → List String → String

-- result.scalar_one_or_none()
abbrev pub one_or_none : List AuditLog → Result PyError (Option AuditLog)
one_or_none [] = ok none
one_or_none (row ∷ []) = ok (some row)
one_or_none (row ∷ _ ∷ _) = raise (record {
  class_name = "MultipleResultsFound";
  message = "Multiple rows were found when one or none was required";
})

unfoldable pub fetch_audit : List AuditLog → String → Result PyError (Option AuditLog)
fetch_audit rows request_id = one_or_none (filter (λ row. str_eq row.request_id request_id) rows)

abbrev pub text_is : Option String → String → Bool
text_is none t = false
text_is (some s) t = str_eq s t

abbrev pub same : Bool → Bool → Bool
same true b = b
same false b = not b

abbrev pub audit_matches : AuditLog → ProviderPlan → Bool → Bool
audit_matches audit plan stream =
    text_is audit.provider plan.provider
    && text_is audit.model plan.model
    && ltb 0 audit.total_tokens
    && same audit.stream stream

-- whether the audit row matches, and the result with what the row says
unfoldable pub validate_audit :
    Option AuditLog → ProviderPlan → Bool → CheckResult → Bool × CheckResult
validate_audit none plan stream result = (false, record result { audit_status = "missing" })
validate_audit (some audit) plan stream result =
    let matches = audit_matches audit plan stream in
    (
      matches,
      record result {
        prompt_tokens = some audit.prompt_tokens;
        completion_tokens = some audit.completion_tokens;
        total_tokens = some audit.total_tokens;
        cost_usd = some audit.cost_usd;
        audit_status = if matches then "OK" else "bad";
      },
    )

-- response.headers["x-request-id"]
abbrev pub request_id_of : Response → Result PyError String
request_id_of r = elim r.request_id [
  | none ↦ raise (record { class_name = "KeyError"; message = "'x-request-id'" })
  | some id ↦ ok id
]

-- "".join(chunks)
unfoldable pub join_from : ℕ → List Json → Result PyError String
unfolding py_error type_name
join_from i [] = ok ""
join_from i (text t ∷ chunks) = do rest ← join_from (suc i) chunks; ok (String.◌++◌ t rest)
join_from i (v ∷ chunks) = py_error "TypeError" (
    String.◌++◌ "sequence item " (
      String.◌++◌ (str_nat i)
        (String.◌++◌ ": expected str instance, " (String.◌++◌ (type_name v) " found"))))

abbrev pub verdict : Bool → String
verdict true = "PASS"
verdict false = "FAIL"

abbrev pub error_unless : Bool → String → String
error_unless true e = ""
error_unless false e = e

-- the fields of a result that are set at the end
abbrev pub concluded : Bool → String → Json → Bool × CheckResult → CheckResult
concluded checked e content (audit_ok, result) = record result {
  text = content;
  status = verdict (checked && audit_ok);
  error = error_unless checked e;
}
