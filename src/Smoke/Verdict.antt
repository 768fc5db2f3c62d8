-- ===== src/Smoke/Verdict.antt =====
-- scripts/smoke_provider.py: what a passed check, and an exit code of 0, are worth.
use ai_serving_backend.Prelude.{
  ◌<◌, ltb, ltb→lt, String, ◌≡◌, ◌≢◌, refl, sym, ap, ◌∙◌, inl, inr, Bool, true, false, not, ◌&&◌,
  Option, none, some, List, [], ◌∷◌, arith, Bool-cases, Option-cases, Result, ok, raise, ◌>>=◌,
  str_eq, eq_iff, ==_iff, filter, ◌==◌, is_empty,
}
use ai_serving_backend.Db.{AuditLog}
use ai_serving_backend.Json.{Json, text, PyError}
use ai_serving_backend.Smoke.Plans.{ProviderPlan}
use ai_serving_backend.Smoke.Sse.{SseBody, parse_sse_body}
use ai_serving_backend.Smoke.Checks.{stream_ok, stream_result, unless_refused, read_stream}
use ai_serving_backend.Smoke.Answers.{
  CheckResult, Response, Builtins, fetch_audit, one_or_none, audit_matches, text_is, same,
  validate_audit, request_id_of, join_from, new_result, concluded, verdict,
}

-- The audit row that a check of a plan wants to see.
pub record IsAudited (plan : ProviderPlan) (stream : Bool) (request_id : String) (row : AuditLog)
    : Type 0 where
  pub provider : row.provider ≡ some plan.provider
  pub model : row.model ≡ some plan.model
  pub total_tokens : 0 < row.total_tokens
  pub stream_lem : row.stream ≡ stream
  pub request_id_lem : row.request_id ≡ request_id

-- What a passed check of a stream has seen.
pub record StreamPassed (py : Builtins) (plan : ProviderPlan) (r : Response) (rows : List AuditLog)
    : Type 0 where
  pub answered : r.status_code ≡ 200
  pub seen : SseBody
  pub parsed : parse_sse_body py.loads r.body ≡ ok seen
  pub done : seen.saw_done ≡ true
  pub usage : seen.saw_usage ≡ true
  pub readable : seen.parse_errors ≡ []
  pub content : String
  pub joined : join_from 0 seen.chunks ≡ ok content
  pub not_empty : content ≢ ""
  pub request_id : String
  pub header : r.request_id ≡ some request_id
  pub row : AuditLog
  pub stored : filter (λ l. str_eq l.request_id request_id) rows ≡ row ∷ []
  pub audited : IsAudited plan true request_id row

pub ended_step :
    {E Got Out : Type 0} (first : Result E Got) (next : Got → Result E Out) {out : Out}
    → (first >>= next) ≡ ok out
    → (got : Got) × (first ≡ ok got) × (next got ≡ ok out)
ended_step (raise failure) next h = cc
ended_step (ok got) next h = (got, refl, h)

text_is-eq : (o : Option String) (t : String) → text_is o t ≡ true → o ≡ some t
text_is-eq none t h = cc
text_is-eq (some s) t h = ap some ((eq_iff s t).0 h)

same-eq : (a b : Bool) → same a b ≡ true → a ≡ b
same-eq true true h = refl
same-eq true false h = cc
same-eq false true h = cc
same-eq false false h = refl

pub and-eq : (a b : Bool) → (a && b) ≡ true → (a ≡ true) × (b ≡ true)
and-eq true b h = (refl, h)
and-eq false b h = cc

filter-keeps :
    (request_id : String) (rows : List AuditLog) (row : AuditLog) (more : List AuditLog)
    → filter (λ l. str_eq l.request_id request_id) rows ≡ row ∷ more
    → row.request_id ≡ request_id
filter-keeps request_id [] row more h = cc
filter-keeps request_id (r ∷ rs) row more h = elim (Bool-cases (str_eq r.request_id request_id)) [
  | inl it ↦
      let h' = rw it at h in
      let same_row : r ≡ row = cc in
      ap (λ l. l.request_id) (sym same_row) ∙ (eq_iff r.request_id request_id).0 it
  | inr other ↦ filter-keeps request_id rs row more (rw other at h)
]

fetch_audit-eq :
    (rows : List AuditLog) (request_id : String) (row : AuditLog)
    → fetch_audit rows request_id ≡ ok (some row)
    → filter (λ l. str_eq l.request_id request_id) rows ≡ row ∷ []
unfolding fetch_audit
fetch_audit-eq rows request_id row h = only_one _ h
  where
    only_one : (ls : List AuditLog) → one_or_none ls ≡ ok (some row) → ls ≡ row ∷ []
    only_one [] e = cc
    only_one (l ∷ []) e = cc
    only_one (l ∷ k ∷ ls) e = cc

pub fail_ne_pass : ◌≢◌ {A = String} "FAIL" "PASS"
fail_ne_pass = ground (arith, eq_iff "FAIL" "PASS")

ok_inj : {a b : CheckResult} → ◌≡◌ {A = Result PyError CheckResult} (ok a) (ok b) → a ≡ b
ok_inj h = cc

verdict-pass : (b : Bool) → verdict b ≡ "PASS" → b ≡ true
verdict-pass true h = refl
verdict-pass false h = absurd (fail_ne_pass h)

audit_matches-IsAudited :
    (row : AuditLog) (plan : ProviderPlan) (stream : Bool) (request_id : String)
    → audit_matches row plan stream ≡ true
    → row.request_id ≡ request_id
    → IsAudited plan stream request_id row
audit_matches-IsAudited row plan stream request_id h e =
    let (h1, s) = and-eq _ (same row.stream stream) h in
    let (h2, t) = and-eq _ (ltb 0 row.total_tokens) h1 in
    let (p, m) = and-eq _ (text_is row.model plan.model) h2 in
    record {
      provider = text_is-eq row.provider plan.provider p;
      model = text_is-eq row.model plan.model m;
      total_tokens = ltb→lt 0 row.total_tokens t;
      stream_lem = same-eq row.stream stream s;
      request_id_lem = e;
    }

not_empty_text : (t : String) → not (str_eq t "") ≡ true → t ≢ ""
not_empty_text t h e = let h' = rw ((eq_iff t "").1 e) at h in absurd (cc)

none_left : (es : List String) → is_empty es ≡ true → es ≡ []
none_left [] h = refl
none_left (e ∷ es) h = cc

module _ (py : Builtins) (plan : ProviderPlan) (r : Response) (rows : List AuditLog) where
  unless_refused-passes :
      (mode : String) (checked : Result PyError CheckResult) (result : CheckResult)
      → unless_refused py plan mode r checked ≡ ok result
      → result.status ≡ "PASS"
      → (r.status_code ≡ 200) × (checked ≡ ok result)
  unfolding new_result
  unless_refused-passes mode checked result h p = elim (Bool-cases (r.status_code == 200)) [
    | inl it ↦ ((==_iff r.status_code 200).0 it, rw it at h)
    | inr other ↦
        let h' = rw other at h in absurd (fail_ne_pass (ap (λ c. c.status) (ok_inj h') ∙ p))
  ]

  validate_audit-passes :
      (audit : Option AuditLog) (request_id : String) (stream checked : Bool) (e : String)
      (content : Json) (before : CheckResult)
      → fetch_audit rows request_id ≡ ok audit
      → (concluded checked e content (validate_audit audit plan stream before)).status ≡ "PASS"
      → (checked ≡ true)
        × ((row : AuditLog) × (filter (λ l. str_eq l.request_id request_id) rows ≡ row ∷ [])
            × IsAudited plan stream request_id row)
  unfolding validate_audit
  validate_audit-passes none request_id stream checked e content before h p =
      let (c, f) = and-eq checked false (verdict-pass (checked && false) p) in absurd (cc)
  validate_audit-passes (some row) request_id stream checked e content before h p =
      let (c, m) = and-eq checked (audit_matches row plan stream) (verdict-pass _ p) in
      let stored = fetch_audit-eq rows request_id row h in
      (
        c,
        (
          row,
          stored,
          audit_matches-IsAudited row plan stream request_id m
              (filter-keeps request_id rows row [] stored),
        ),
      )

  request_id_of-eq : (id : String) → request_id_of r ≡ ok id → r.request_id ≡ some id
  request_id_of-eq id h = elim (Option-cases r.request_id) [
    | inl e ↦ let h' = rw e at h in absurd (cc)
    | inr (i, e) ↦ let h' = rw e at h in e ∙ cc
  ]

  stream_ok-holds :
      (seen : SseBody) (content : String)
      → stream_ok py r.content_type seen content ≡ true
      → (seen.saw_done ≡ true) × (seen.saw_usage ≡ true) × (seen.parse_errors ≡ []) × (content ≢ "")
  stream_ok-holds seen content h =
      let (h1, p) = and-eq _ (is_empty seen.parse_errors) h in
      let (h2, u) = and-eq _ seen.saw_usage h1 in
      let (h3, d) = and-eq _ seen.saw_done h2 in
      let (h4, c) = and-eq _ (not (str_eq content "")) h3 in
      (d, u, none_left seen.parse_errors p, not_empty_text content c)

  -- When the check of a stream passes, the response was a 200 whose events could all be read, with a
  -- usage and the end marker among them and some content, and the audit table has exactly one row with the
  -- response's request id: a stream of the plan's provider and model, with tokens.
  pub stream_result-passes :
      (result : CheckResult)
      → stream_result py plan r rows ≡ ok result
      → result.status ≡ "PASS"
      → StreamPassed py plan r rows
  unfolding stream_result read_stream
  stream_result-passes result h p =
      let (answered, h1) = unless_refused-passes "stream" (read_stream py plan r rows) result h p in
      let (seen, parsed, h2) = ended_step (parse_sse_body py.loads r.body) _ h1 in
      let (content, joined, h3) = ended_step (join_from 0 seen.chunks) _ h2 in
      let (request_id, header, h4) = ended_step (request_id_of r) _ h3 in
      let (audit, fetched, h5) = ended_step (fetch_audit rows request_id) _ h4 in
      let (checked, (row, stored, audited)) =
        validate_audit-passes audit request_id true _ "" (text "") _ fetched
          (ap (λ c. c.status) (ok_inj h5) ∙ p) in
      let (done, usage, readable, not_empty) = stream_ok-holds seen content checked in
      record {
        answered = answered;
        seen = seen;
        parsed = parsed;
        done = done;
        usage = usage;
        readable = readable;
        content = content;
        joined = joined;
        not_empty = not_empty;
        request_id = request_id;
        header = request_id_of-eq request_id header;
        row = row;
        stored = stored;
        audited = audited;
      }
