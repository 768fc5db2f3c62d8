-- ===== src/Chat/Handler/Asked.antt =====
-- Which provider the dispatch of a request asks, and what it is given.
use ai_serving_backend.Prelude.{
  ℕ, String, ◌≡◌, refl, ◌⊎◌, inl, inr, Bool, true, false, some, List, [], ◌∷◌, ◌++◌, Option-cases,
  Result-cases, Result, ok, raise,
}
use ai_serving_backend.Errors.{Exception}
use ai_serving_backend.Schemas.{NormalizedChatRequest}
use ai_serving_backend.Registry.{ProviderName, provider_text, provider_for_model}
use ai_serving_backend.Streaming.{StreamLease, acquire}
use ai_serving_backend.Auth.{ApiKeyPrincipal}
use ai_serving_backend.Chat.Stream.{Arrival, Next, got, stopped, timed_out, failed}
use ai_serving_backend.Chat.Dispatch.{
  ChatSettings, AiProvider, World, first_chunk, open_stream, stream_step, completion_step,
  hand_over, dispatch,
}

-- the requests that a provider was given: those before, and perhaps this one
abbrev Requests : Type 0
Requests = List (ProviderName × NormalizedChatRequest)

abbrev AskedOnly : Requests → ProviderName × NormalizedChatRequest → Requests → Type 0
AskedOnly before one after = (after ≡ before) ⊎ (after ≡ before ++ one ∷ [])

first_chunk-asked :
    (settings : ChatSettings) (r : NormalizedChatRequest) (fallback_id : String) (deadline : ℕ)
    (upstream : List Arrival) (lease : StreamLease) (x : Next) (w : World)
    → (first_chunk settings r fallback_id deadline upstream lease x w).1.asked ≡ w.asked
unfolding first_chunk
first_chunk-asked settings r fallback_id deadline upstream lease (got c t) w = refl
first_chunk-asked settings r fallback_id deadline upstream lease (stopped t) w = refl
first_chunk-asked settings r fallback_id deadline upstream lease (timed_out t) w = refl
first_chunk-asked settings r fallback_id deadline upstream lease (failed e t) w = refl

open_stream-asked :
    (settings : ChatSettings) (r : NormalizedChatRequest) (fallback_id : String) (now : ℕ)
    (stream : Result Exception (List Arrival)) (lease : StreamLease) (w : World)
    → (open_stream settings r fallback_id now stream lease w).1.asked ≡ w.asked
unfolding open_stream
open_stream-asked settings r fallback_id now (raise e) lease w = refl
open_stream-asked settings r fallback_id now (ok upstream) lease w =
    first_chunk-asked settings r fallback_id _ _ lease _ w

stream_step-asked :
    (provider : AiProvider) (name : ProviderName) (settings : ChatSettings)
    (r : NormalizedChatRequest) (principal : ApiKeyPrincipal) (fallback_id : String) (now : ℕ)
    (w : World)
    → AskedOnly w.asked
        (name, r)
        (stream_step provider name settings r principal fallback_id now w).1.asked
unfolding stream_step
stream_step-asked provider name settings r principal fallback_id now w =
    elim (Option-cases (acquire principal.api_key_hash w.limiter).0) [
      | inl full ↦ rw (stream_step, full) (inl refl)
      | inr (lease, e) ↦
          rw (stream_step, e) (inr (open_stream-asked settings r fallback_id now _ lease _))
    ]

completion_step-asked :
    (provider : AiProvider) (name : ProviderName) (r : NormalizedChatRequest) (w : World)
    → AskedOnly w.asked (name, r) (completion_step provider name r w).1.asked
unfolding completion_step
completion_step-asked provider name r w = elim (Result-cases (provider.chat r)) [
  | inl (a, e) ↦ rw (completion_step, e) (inr refl)
  | inr (x, e) ↦ rw (completion_step, e) (inr refl)
]

hand_over-asked :
    (provider : AiProvider) (name : ProviderName) (settings : ChatSettings)
    (r : NormalizedChatRequest) (principal : ApiKeyPrincipal) (fallback_id : String) (now : ℕ)
    (streams : Bool) (w : World)
    → AskedOnly w.asked
        (name, r)
        (hand_over provider name settings r principal fallback_id now streams w).1.asked
unfolding hand_over
hand_over-asked provider name settings r principal fallback_id now true w =
    stream_step-asked provider name settings r principal fallback_id now w
hand_over-asked provider name settings r principal fallback_id now false w =
    completion_step-asked provider name r w

-- Either no provider is asked, or one provider is asked once: the one that serves the model.
abbrev pub AskedRight : ChatSettings → Requests → NormalizedChatRequest → Requests → Type 0
AskedRight settings before r after =
    (after ≡ before)
    ⊎ ((name : ProviderName) × (provider_for_model settings.models r.model ≡ ok name)
        × (after ≡ before ++ (name, r) ∷ []))

asked_right :
    (settings : ChatSettings) (before after : Requests) (r : NormalizedChatRequest)
    (name : ProviderName)
    → provider_for_model settings.models r.model ≡ ok name
    → AskedOnly before (name, r) after
    → AskedRight settings before r after
asked_right settings before after r name e (inl same) = inl same
asked_right settings before after r name e (inr more) = inr (name, e, more)

dispatch-found :
    (providers : ProviderName → AiProvider) (settings : ChatSettings) (r : NormalizedChatRequest)
    (principal : ApiKeyPrincipal) (fallback_id : String) (now : ℕ) (w : World) (name : ProviderName)
    → provider_for_model settings.models r.model ≡ ok name
    → dispatch providers settings r principal fallback_id now w
      ≡ hand_over
          (providers name)
          name
          settings
          r
          principal
          fallback_id
          now
          r.stream
          (record w { state = record w.state { provider = some (provider_text name) } })
unfolding dispatch
dispatch-found providers settings r principal fallback_id now w name e = rw (dispatch, e) refl

pub dispatch-AskedRight :
    (providers : ProviderName → AiProvider) (settings : ChatSettings) (r : NormalizedChatRequest)
    (principal : ApiKeyPrincipal) (fallback_id : String) (now : ℕ) (w : World)
    → AskedRight settings w.asked r
        (dispatch providers settings r principal fallback_id now w).1.asked
unfolding dispatch
dispatch-AskedRight providers settings r principal fallback_id now w =
    elim (Result-cases (provider_for_model settings.models r.model)) [
      | inr (x, e) ↦ inl (rw (dispatch, e) refl)
      | inl (name, e) ↦
          rw (dispatch-found providers settings r principal fallback_id now w name e) (
            asked_right settings w.asked _ r name e (
              hand_over-asked (providers name) name settings r principal fallback_id now r.stream
                _))
    ]

-- Two providers that answer one request alike, whatever they answer to others.
pub record AnswerAlike (r : NormalizedChatRequest) (p p' : AiProvider) : Type 0 where
  pub chat : p.chat r ≡ p'.chat r
  pub chat_stream : p.chat_stream r ≡ p'.chat_stream r

stream_step-alike :
    (p p' : AiProvider) (name : ProviderName) (settings : ChatSettings) (r : NormalizedChatRequest)
    (principal : ApiKeyPrincipal) (fallback_id : String) (now : ℕ) (w : World)
    → AnswerAlike r p p'
    → stream_step p name settings r principal fallback_id now w
      ≡ stream_step p' name settings r principal fallback_id now w
unfolding stream_step
stream_step-alike p p' name settings r principal fallback_id now w alike =
    elim (Option-cases (acquire principal.api_key_hash w.limiter).0) [
      | inl full ↦ rw (stream_step, full) refl
      | inr (lease, e) ↦ rw (stream_step, e, alike.chat_stream) refl
    ]

hand_over-alike :
    (p p' : AiProvider) (name : ProviderName) (settings : ChatSettings) (r : NormalizedChatRequest)
    (principal : ApiKeyPrincipal) (fallback_id : String) (now : ℕ) (streams : Bool) (w : World)
    → AnswerAlike r p p'
    → hand_over p name settings r principal fallback_id now streams w
      ≡ hand_over p' name settings r principal fallback_id now streams w
unfolding hand_over completion_step
hand_over-alike p p' name settings r principal fallback_id now true w alike =
    stream_step-alike p p' name settings r principal fallback_id now w alike
hand_over-alike p p' name settings r principal fallback_id now false w alike =
    rw (completion_step, alike.chat) refl

-- The provider that serves the request's model, if there is one, answers it alike in both families.
abbrev pub ServesAlike :
    ChatSettings
    → NormalizedChatRequest
    → (ProviderName → AiProvider)
    → (ProviderName → AiProvider)
    → Type 0
ServesAlike settings r providers providers' =
    (name : ProviderName)
    → provider_for_model settings.models r.model ≡ ok name
    → AnswerAlike r (providers name) (providers' name)

pub dispatch-alike :
    (providers providers' : ProviderName → AiProvider) (settings : ChatSettings)
    (r : NormalizedChatRequest) (principal : ApiKeyPrincipal) (fallback_id : String) (now : ℕ)
    (w : World)
    → ServesAlike settings r providers providers'
    → dispatch providers settings r principal fallback_id now w
      ≡ dispatch providers' settings r principal fallback_id now w
unfolding dispatch
dispatch-alike providers providers' settings r principal fallback_id now w alike =
    elim (Result-cases (provider_for_model settings.models r.model)) [
      | inr (x, e) ↦ rw (dispatch, e) refl
      | inl (name, e) ↦
          rw
            (
              dispatch-found providers settings r principal fallback_id now w name e,
              dispatch-found providers' settings r principal fallback_id now w name e,
            )
            (hand_over-alike (providers name) (providers' name) name settings r principal
              fallback_id now r.stream _ (alike name e))
    ]
