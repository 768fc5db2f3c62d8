-- ===== src/Chat/Dispatch.antt =====
-- app/routers/chat.py: the part of `create_chat_completion` that follows the checks: the provider, the
-- stream's slot and its first chunk. The provider's answers are an argument. What the handler keeps is
-- its world: the request's state, the limiter of streams, the requests that a provider was given, and
-- how often an upstream stream was closed.
use ai_serving_backend.Prelude.{
  ℕ, ◌+◌, String, Bool, true, false, Option, none, some, List, [], ◌∷◌, ◌++◌, Result, ok, raise,
}
use ai_serving_backend.Request.{RequestState}
use ai_serving_backend.Errors.{Exception, api, api_error, rate_limit}
use ai_serving_backend.Schemas.{
  NormalizedChatRequest, NormalizedChatResponse, NormalizedStreamChunk,
}
use ai_serving_backend.Schemas.Responses.{ChatCompletionResponse, response_from_normalized}
use ai_serving_backend.Registry.{ProviderName, provider_text, ModelSettings, provider_for_model}
use ai_serving_backend.Streaming.{StreamLease, StreamConcurrencyLimiter, acquire, release}
use ai_serving_backend.Auth.{ApiKeyPrincipal}
use ai_serving_backend.Chat.Stream.{
  Arrival, Next, got, stopped, timed_out, failed, next_chunk_with_deadline, Piece, Generator,
  Patience, stream_timeout_only, stream_chunks,
}

-- the settings that `validate_policy_mode` lets through
pub data PolicyMode : Type 0 where
  block log_only disabled : PolicyMode

pub record ChatSettings : Type 0 where
  pub policy_mode : PolicyMode
  pub forbidden_patterns : List String
  pub pii_masking_enabled : Bool
  pub pii_types : List String
  pub stream_max_duration_seconds : ℕ
  pub models : ModelSettings

-- the two methods of AIProvider; to call `chat_stream` may itself raise
pub record AiProvider : Type 0 where
  pub chat : NormalizedChatRequest → Result Exception NormalizedChatResponse
  pub chat_stream : NormalizedChatRequest → Result Exception (List Arrival)

pub record World : Type 0 where
  pub state : RequestState
  pub limiter : StreamConcurrencyLimiter
  pub asked : List (ProviderName × NormalizedChatRequest)
  pub closed : ℕ

-- the event stream that the handler returns
pub record EventStream : Type 0 where
  pub generator : Generator
  pub first : Option NormalizedStreamChunk
  pub upstream : List Arrival
  pub lease : StreamLease
  pub started : ℕ

pub data Answer : Type 0 where
  completion : ChatCompletionResponse → Answer
  event_stream : EventStream → Answer
  -- the stream of `_stream_timeout_only`, with status 504
  timeout_stream : Answer

abbrev pub Outcomes : Type 0
Outcomes = Result Exception Answer × World

-- the first chunk has come, or the stream is already at its end
abbrev opened :
    ChatSettings
    → NormalizedChatRequest
    → String
    → ℕ
    → Option NormalizedStreamChunk
    → List Arrival
    → ℕ
    → StreamLease
    → Answer
opened settings r fallback_id deadline first upstream now lease = event_stream (record {
  generator = record { model = r.model; fallback_id = fallback_id; deadline = deadline };
  first = first;
  upstream = upstream;
  lease = lease;
  started = now;
})

-- stream_lease.release(), before the handler leaves
abbrev give_up : StreamLease → ℕ → Result Exception Answer → World → Outcomes
give_up lease closes result w =
    (result, record w { limiter = (release lease w.limiter).1; closed = w.closed + closes })

-- the clauses of the `try` block that awaits the first chunk
unfoldable pub first_chunk :
    ChatSettings
    → NormalizedChatRequest
    → String
    → ℕ
    → List Arrival
    → StreamLease
    → Next
    → World
    → Outcomes
first_chunk settings r fallback_id deadline upstream lease (got c now) w =
    (ok (opened settings r fallback_id deadline (some c) upstream now lease), w)
first_chunk settings r fallback_id deadline upstream lease (stopped now) w =
    (ok (opened settings r fallback_id deadline none upstream now lease), w)
first_chunk settings r fallback_id deadline upstream lease (timed_out now) w =
    give_up lease 1 (ok timeout_stream) w
first_chunk settings r fallback_id deadline upstream lease (failed e now) w =
    give_up lease 1 (raise e) w

-- an upstream that never answers runs into the deadline
abbrev pub rest_of : List Arrival → List Arrival
rest_of [] = []
rest_of (a ∷ upstream) = upstream

abbrev pub first_of : ℕ → ℕ → List Arrival → Next
first_of deadline now [] = timed_out deadline
first_of deadline now (a ∷ upstream) = next_chunk_with_deadline deadline now a

unfoldable pub open_stream :
    ChatSettings
    → NormalizedChatRequest
    → String
    → ℕ
    → Result Exception (List Arrival)
    → StreamLease
    → World
    → Outcomes
unfolding first_chunk next_chunk_with_deadline
open_stream settings r fallback_id now (raise e) lease w = give_up lease 0 (raise e) w
open_stream settings r fallback_id now (ok upstream) lease w =
    let deadline = now + settings.stream_max_duration_seconds in
    first_chunk settings r fallback_id deadline (rest_of upstream) lease
      (first_of deadline now upstream) w

-- a call of a method of a provider, which is noted: what is noted is what the method is given
abbrev pub ask :
    {A : Type 0}
    → (NormalizedChatRequest → A)
    → ProviderName
    → NormalizedChatRequest
    → World
    → A × World
ask method name r w = (method r, record w { asked = w.asked ++ (name, r) ∷ [] })

unfoldable pub stream_step :
    AiProvider
    → ProviderName
    → ChatSettings
    → NormalizedChatRequest
    → ApiKeyPrincipal
    → String
    → ℕ
    → World
    → Outcomes
unfolding acquire open_stream
stream_step provider name settings r principal fallback_id now w =
    let (lease, limiter) = acquire principal.api_key_hash w.limiter in
    let w' : World = record w { limiter = limiter } in
    elim lease [
      | none ↦ (raise (api (api_error rate_limit "Too many concurrent streams" [])), w')
      | some l ↦
          let (stream, asking) = ask provider.chat_stream name r w' in
          open_stream settings r fallback_id now stream l asking
    ]

unfoldable pub completion_step :
    AiProvider → ProviderName → NormalizedChatRequest → World → Outcomes
completion_step provider name r w =
    let (answer, asking) = ask provider.chat name r w in
    elim answer [
      | raise e ↦ (raise e, asking)
      | ok response ↦ (
        ok (completion (response_from_normalized response)),
        record asking { state = record asking.state { token_usage = some response.usage } },
      )
    ]

-- if normalized.stream
unfoldable pub hand_over :
    AiProvider
    → ProviderName
    → ChatSettings
    → NormalizedChatRequest
    → ApiKeyPrincipal
    → String
    → ℕ
    → Bool
    → World
    → Outcomes
unfolding stream_step completion_step
hand_over provider name settings r principal fallback_id now true w =
    stream_step provider name settings r principal fallback_id now w
hand_over provider name settings r principal fallback_id now false w =
    completion_step provider name r w

-- the handler's part after masking
unfoldable pub dispatch :
    (ProviderName → AiProvider)
    → ChatSettings
    → NormalizedChatRequest
    → ApiKeyPrincipal
    → String
    → ℕ
    → World
    → Outcomes
unfolding hand_over provider_for_model
dispatch providers settings r principal fallback_id now w =
    elim (provider_for_model settings.models r.model) [
      | raise e ↦ (raise e, w)
      | ok name ↦
          let w' : World = record w {
            state = record w.state { provider = some (provider_text name) };
          } in
          hand_over (providers name) name settings r principal fallback_id now r.stream w'
    ]

-- What a client is sent of an answer's event stream, and the world when the stream has ended.
unfoldable pub serve : Answer → Patience → World → List Piece × World
unfolding stream_chunks stream_timeout_only
serve (completion c) patience w = ([], w)
serve timeout_stream patience w =
    let (pieces, s) = stream_timeout_only w.state in (pieces, record w { state = s })
serve (event_stream e) patience w =
    let ended =
      stream_chunks e.generator e.first e.upstream e.started patience e.lease w.limiter w.state in
    (ended.pieces, record w { state = ended.state; limiter = ended.limiter; closed = w.closed + 1 })

-- A request whose event stream, if it gets one, runs until it ends or its client goes away.
abbrev pub answered : Patience → Outcomes → List Piece × World
answered patience (ok a, w) = serve a patience w
answered patience (raise e, w) = ([], w)
