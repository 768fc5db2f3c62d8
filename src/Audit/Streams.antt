-- ===== src/Audit/Streams.antt =====
-- app/observability.py and app/routers/chat.py together: the audit row of a stream that has ended.
use ai_serving_backend.Prelude.{
  ℕ, ◌+◌, ◌==◌, if◌then◌else◌, String, ◌≡◌, refl, ap, Option, none, some, List, ◌++◌,
}
use ai_serving_backend.Request.{RequestState, NormalizedUsage}
use ai_serving_backend.Schemas.{NormalizedStreamChunk}
use ai_serving_backend.Chat.Stream.{Arrival, Generator, stream_body}
use ai_serving_backend.Chat.Stream.Delivery.{firsts, body-Heard}
use ai_serving_backend.Chat.Stream.Endings.{
  Ending, completed, late, broken, ending_status, ending_error, Heard, last_usage, left_state,
}
use ai_serving_backend.Audit.{AuditFields, fields_of, usage_int, or_else}

-- A stream's usage counts only when it is completed.
abbrev pub ending_usage : Ending → Option NormalizedUsage → Option NormalizedUsage
ending_usage completed usage = usage
ending_usage late usage = none
ending_usage (broken e) usage = none

-- what is counted of a usage, if there is one
abbrev pub counted : (NormalizedUsage → ℕ) → Option NormalizedUsage → ℕ
counted count none = 0
counted count (some u) = count u

-- a total of 0 is taken for one that is not told
abbrev pub full_total : NormalizedUsage → ℕ
full_total u = if u.total_tokens == 0 then u.prompt_tokens + u.completion_tokens else u.total_tokens

pub record IsAuditedAs (end : Ending) (usage : Option NormalizedUsage) (f : AuditFields)
    : Type 0 where
  pub status_code : f.status_code ≡ ending_status end
  pub error_type : f.error_type ≡ ending_error end
  pub prompt_tokens : f.prompt_tokens ≡ counted (λ u. u.prompt_tokens) (ending_usage end usage)
  pub completion_tokens :
      f.completion_tokens ≡ counted (λ u. u.completion_tokens) (ending_usage end usage)
  pub total_tokens : f.total_tokens ≡ counted full_total (ending_usage end usage)

-- the fields that `_finalize_request` has audited, for a response of status 200
abbrev pub audited_fields : RequestState → String → ℕ → AuditFields
audited_fields s uuid latency_ms = fields_of s uuid (or_else s.audit_status_code 200) latency_ms

-- the counts of the row, when the state has this usage
record HasCounts (usage : Option NormalizedUsage) (f : AuditFields) : Type 0 where
  prompt_tokens : f.prompt_tokens ≡ counted (λ u. u.prompt_tokens) usage
  completion_tokens : f.completion_tokens ≡ counted (λ u. u.completion_tokens) usage
  total_tokens : f.total_tokens ≡ counted full_total usage

fields_of-HasCounts :
    (s : RequestState) (uuid : String) (status_code latency_ms : ℕ) (usage : Option NormalizedUsage)
    → s.token_usage ≡ usage
    → HasCounts usage (fields_of s uuid status_code latency_ms)
unfolding fields_of usage_int
fields_of-HasCounts s uuid status_code latency_ms none e = record {
  prompt_tokens = rw e refl;
  completion_tokens = rw e refl;
  total_tokens = rw e refl;
}
fields_of-HasCounts s uuid status_code latency_ms (some u) e = record {
  prompt_tokens = rw e refl;
  completion_tokens = rw e refl;
  total_tokens = rw e refl;
}

left_state-usage :
    (end : Ending) (usage : Option NormalizedUsage) (s : RequestState)
    → s.token_usage ≡ none
    → (left_state usage end s).token_usage ≡ ending_usage end usage
left_state-usage completed usage s u = refl
left_state-usage late usage s u = u
left_state-usage (broken e) usage s u = u

left_state-status :
    (end : Ending) (usage : Option NormalizedUsage) (s : RequestState)
    → s.audit_status_code ≡ none
    → or_else (left_state usage end s).audit_status_code 200 ≡ ending_status end
left_state-status completed usage s c = ap (λ o. or_else o 200) c
left_state-status late usage s c = refl
left_state-status (broken e) usage s c = refl

left_state-error :
    (end : Ending) (usage : Option NormalizedUsage) (s : RequestState)
    → s.error_type ≡ none
    → (left_state usage end s).error_type ≡ ending_error end
left_state-error completed usage s e = e
left_state-error late usage s e = refl
left_state-error (broken x) usage s e = refl

ending-IsAuditedAs :
    (end : Ending) (usage : Option NormalizedUsage) (s : RequestState) (uuid : String)
    (latency_ms : ℕ)
    → s.audit_status_code ≡ none
    → s.error_type ≡ none
    → s.token_usage ≡ none
    → IsAuditedAs end usage (audited_fields (left_state usage end s) uuid latency_ms)
unfolding fields_of
ending-IsAuditedAs end usage s uuid latency_ms c e u =
    let left = left_state usage end s in
    let told =
      fields_of-HasCounts left uuid (or_else left.audit_status_code 200) latency_ms _
        (left_state-usage end usage s u) in
    record {
      status_code = left_state-status end usage s c;
      error_type = left_state-error end usage s e;
      prompt_tokens = told.prompt_tokens;
      completion_tokens = told.completion_tokens;
      total_tokens = told.total_tokens;
    }

-- The audit row of a stream whose client stays, on a request whose state tells of no failure before:
-- a stream that ended in time has the status 200, no error, and the prompt, completion and total tokens
-- of the last usage that came, where a total of 0 is the sum of the other two; one that was late has 504
-- and the timeout; one that broke has the status and the type of its error, or 500 and a server error;
-- and these two have no counts.
pub stream_body-IsAuditedAs :
    (g : Generator) (first : Option NormalizedStreamChunk) (now : ℕ) (upstream : List Arrival)
    (chunks : List NormalizedStreamChunk) (end : Ending) (s : RequestState) (uuid : String)
    (latency_ms : ℕ)
    → Heard g.deadline now upstream chunks end
    → s.audit_status_code ≡ none
    → s.error_type ≡ none
    → s.token_usage ≡ none
    → IsAuditedAs end
        (last_usage none (firsts first ++ chunks))
        (audited_fields (stream_body g first upstream now none s).1 uuid latency_ms)
stream_body-IsAuditedAs g first now upstream chunks end s uuid latency_ms heard c e u =
    rw (body-Heard g first now upstream chunks end s heard)
      (ending-IsAuditedAs end (last_usage none (firsts first ++ chunks)) s uuid latency_ms c e u)
