-- ===== src/Chat/Handler.antt =====
-- app/routers/chat.py: `parse_chat_completion_request` and `create_chat_completion`.
pub mod Asked
pub mod Guards
pub mod Leases
use ai_serving_backend.Prelude.{
  ℕ, zero, suc, ◌+◌, String, Bool, true, false, not, ◌&&◌, Option, none, some, List, [], ◌∷◌, ◌++◌,
  map, str_eq, is_empty, if◌then◌else◌, Result, ok, raise,
}
use ai_serving_backend.Request.{
  RequestState, NormalizedMessage, NormalizedUsage, PolicyEvent, StoredMessage,
}
use ai_serving_backend.Errors.{
  ValidationError, Exception, api, validation, api_error, rate_limit, policy_violation_error,
}
use ai_serving_backend.Schemas.{
  Limits, Body, ChatCompletionRequest, NormalizedChatRequest, NormalizedChatResponse,
  NormalizedStreamChunk, model_validate, to_normalized,
}
use ai_serving_backend.Schemas.Responses.{ChatCompletionResponse, response_from_normalized}
use ai_serving_backend.Registry.{ProviderName, provider_text, ModelSettings, provider_for_model}
use ai_serving_backend.Policy.{RegexModule, PolicyMatch, compile_rules, scan_messages}
use ai_serving_backend.Pii.{Scanner}
use ai_serving_backend.Pii.Mask.{mask_messages}
use ai_serving_backend.Streaming.{StreamLease, StreamConcurrencyLimiter, acquire, release}
use ai_serving_backend.Auth.{ApiKeyPrincipal}
use ai_serving_backend.Chat.Stream.{
  Outcome, yields, stops, fails, Arrival, Next, got, stopped, timed_out, failed,
  next_chunk_with_deadline, Piece, Generator, Patience, stream_timeout_only, Ended, stream_chunks,
}
use ai_serving_backend.Chat.Dispatch.{
  PolicyMode, block, log_only, disabled, ChatSettings, AiProvider, World, EventStream, Answer,
  completion, event_stream, timeout_stream, Outcomes, first_chunk, rest_of, first_of, open_stream,
  stream_step, completion_step, hand_over, dispatch, serve, answered,
}

-- request.json() raises, or gives the body's fields, which the validators check
unfoldable pub parse_chat_completion_request :
    Limits → Option Body → RequestState → Result Exception ChatCompletionRequest × RequestState
parse_chat_completion_request l none s =
    (raise (validation (record { loc = "body" ∷ []; msg = some "Invalid JSON" } ∷ [])), s)
parse_chat_completion_request l (some body) s = elim (model_validate l body) [
  | ok payload ↦ (ok payload, record s { stream = some payload.stream })
  | raise errors ↦ (raise (validation errors), s)
]

abbrev pub event_of : String → PolicyMatch → PolicyEvent
event_of action m = record {
  event_type = "forbidden_content";
  action = action;
  rule_id = m.rule_id;
  count = m.count;
  severity = m.severity;
}

abbrev pub events_before : Option (List PolicyEvent) → List PolicyEvent
events_before none = []
events_before (some events) = events

abbrev is_block : PolicyMode → Bool
is_block block = true
is_block log_only = false
is_block disabled = false

abbrev is_disabled : PolicyMode → Bool
is_disabled block = false
is_disabled log_only = false
is_disabled disabled = true

-- the events of the matches are kept; a block raises
unfoldable pub record_matches :
    PolicyMode → List PolicyMatch → RequestState → Result Exception Unit × RequestState
record_matches mode [] s = (ok tt, s)
record_matches mode (m ∷ matches) s =
    let action : String = if is_block mode then "block" else "log" in
    let s' : RequestState = record s {
      policy_events = some (events_before s.policy_events ++ map (event_of action) (m ∷ matches));
    } in
    if is_block mode
    then (
      raise (api policy_violation_error),
      record s' { error_type = some "content_policy_violation" },
    )
    else (ok tt, s')

abbrev stored : ℕ → List NormalizedMessage → List StoredMessage
stored i [] = []
stored i (m ∷ ms) = record { seq = i; role = m.role; content = m.content } ∷ stored (suc i) ms

-- the masking of personal data
unfoldable pub pii_step :
    Scanner
    → ChatSettings
    → NormalizedChatRequest
    → RequestState
    → NormalizedChatRequest × RequestState
unfolding mask_messages
pii_step scanner settings r s =
    let (masked, summary) = mask_messages scanner r.messages settings.pii_types in
    if settings.pii_masking_enabled
    then (
      record r { messages = masked },
      record s { stored_messages = some (stored 0 masked); pii_masked = some summary },
    )
    else (r, s)

module _ (re : RegexModule) where
  policy_scan :
      PolicyMode
      → List String
      → NormalizedChatRequest
      → RequestState
      → Result Exception Unit × RequestState
  unfolding record_matches
  policy_scan mode patterns r s =
      if not (is_disabled mode) && not (is_empty patterns)
      then record_matches mode (scan_messages re r.messages (compile_rules re patterns)) s
      else (ok tt, s)

  unfoldable pub policy_step :
      ChatSettings → NormalizedChatRequest → RequestState → Result Exception Unit × RequestState
  unfolding policy_scan
  policy_step settings r s = policy_scan settings.policy_mode settings.forbidden_patterns r s

abbrev pub named : NormalizedChatRequest → World → World
named r w = record w { state = record w.state { model = some r.model; stream = some r.stream } }

module _ (re : RegexModule) (scanner : Scanner) (providers : ProviderName → AiProvider) where
  -- the handler after the policy's step: masking and the provider
  after_policy :
      ChatSettings
      → NormalizedChatRequest
      → ApiKeyPrincipal
      → String
      → ℕ
      → World
      → Result Exception Unit × RequestState
      → Outcomes
  unfolding pii_step dispatch
  after_policy settings r principal fallback_id now w (raise e, s) =
      (raise e, record w { state = s })
  after_policy settings r principal fallback_id now w (ok _, s) =
      let (masked, s') = pii_step scanner settings r s in
      dispatch providers settings masked principal fallback_id now (record w { state = s' })

  -- create_chat_completion, after its dependencies
  unfoldable pub create_chat_completion :
      ChatSettings → ChatCompletionRequest → ApiKeyPrincipal → String → ℕ → World → Outcomes
  unfolding to_normalized policy_step after_policy
  create_chat_completion settings payload principal fallback_id now w =
      let r = to_normalized payload in
      after_policy settings r principal fallback_id now w
        (policy_step re settings r (named r w).state)
