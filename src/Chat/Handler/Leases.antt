-- ===== src/Chat/Handler/Leases.antt =====
-- The slots of streams across a whole chat request.
use ai_serving_backend.Prelude.{
  ℕ, String, ◌≡◌, sym, subst, fun_ext, inl, inr, Bool, true, false, List, arith, Option-cases,
  Result-cases, Result, ok, raise,
}
use ai_serving_backend.Errors.{Exception}
use ai_serving_backend.Request.{RequestState}
use ai_serving_backend.Schemas.{ChatCompletionRequest, NormalizedChatRequest, to_normalized}
use ai_serving_backend.Registry.{ProviderName, provider_for_model}
use ai_serving_backend.Policy.{RegexModule}
use ai_serving_backend.Pii.{Scanner}
use ai_serving_backend.Streaming.{StreamLease, StreamConcurrencyLimiter, acquire, release}
use ai_serving_backend.Streaming.Invariant.{Inv, bump, lower, acquire-Inv, release-Inv}
use ai_serving_backend.Streaming.History.{acquire-lease}
use ai_serving_backend.Auth.{ApiKeyPrincipal}
use ai_serving_backend.Chat.Stream.{
  Arrival, Next, got, stopped, timed_out, failed, Patience, stream_chunks,
}
use ai_serving_backend.Chat.Dispatch.{
  ChatSettings, AiProvider, World, Outcomes, first_chunk, open_stream, stream_step, completion_step,
  hand_over, dispatch, serve, answered,
}
use ai_serving_backend.Chat.Handler.{policy_step, after_policy, create_chat_completion, named}

lower-bump : (key : String) (live : String → ℕ) → lower key (bump key live) ≡ live
lower-bump key live = fun_ext λ k. ground arith

release-bump :
    (lease : StreamLease) (l : StreamConcurrencyLimiter) (live : String → ℕ)
    → lease.released ≡ false
    → Inv l (bump lease.key live)
    → Inv (release lease l).1 live
release-bump lease l live r v =
    rw (lower-bump lease.key live) at (release-Inv lease l (bump lease.key live) r v)

-- After an answer is served, the live leases are `live`.
abbrev Balanced : (String → ℕ) → Patience → Outcomes → Type 0
Balanced live patience o = Inv (answered patience o).1.limiter live

first_chunk-Balanced :
    (settings : ChatSettings) (r : NormalizedChatRequest) (fallback_id : String) (deadline : ℕ)
    (upstream : List Arrival) (lease : StreamLease) (x : Next) (w : World) (live : String → ℕ)
    (patience : Patience)
    → lease.released ≡ false
    → Inv w.limiter (bump lease.key live)
    → Balanced live patience (first_chunk settings r fallback_id deadline upstream lease x w)
unfolding first_chunk serve stream_chunks
first_chunk-Balanced settings r fallback_id deadline upstream lease (got c t) w live patience h v =
    release-bump lease w.limiter live h v
first_chunk-Balanced settings r fallback_id deadline upstream lease (stopped t) w live patience h
      v =
    release-bump lease w.limiter live h v
first_chunk-Balanced settings r fallback_id deadline upstream lease (timed_out t) w live patience h
      v =
    release-bump lease w.limiter live h v
first_chunk-Balanced settings r fallback_id deadline upstream lease (failed e t) w live patience h
      v =
    release-bump lease w.limiter live h v

open_stream-Balanced :
    (settings : ChatSettings) (r : NormalizedChatRequest) (fallback_id : String) (now : ℕ)
    (stream : Result Exception (List Arrival)) (lease : StreamLease) (w : World) (live : String → ℕ)
    (patience : Patience)
    → lease.released ≡ false
    → Inv w.limiter (bump lease.key live)
    → Balanced live patience (open_stream settings r fallback_id now stream lease w)
unfolding open_stream
open_stream-Balanced settings r fallback_id now (raise e) lease w live patience h v =
    release-bump lease w.limiter live h v
open_stream-Balanced settings r fallback_id now (ok upstream) lease w live patience h v =
    first_chunk-Balanced settings r fallback_id _ _ lease _ w live patience h v

stream_step-Balanced :
    (provider : AiProvider) (name : ProviderName) (settings : ChatSettings)
    (r : NormalizedChatRequest) (principal : ApiKeyPrincipal) (fallback_id : String) (now : ℕ)
    (w : World) (live : String → ℕ) (patience : Patience)
    → Inv w.limiter live
    → Balanced live patience (stream_step provider name settings r principal fallback_id now w)
unfolding stream_step
stream_step-Balanced provider name settings r principal fallback_id now w live patience v =
    let key = principal.api_key_hash in
    let taken = acquire-Inv key w.limiter live v in
    elim (Option-cases (acquire key w.limiter).0) [
      | inl full ↦ rw (stream_step, full) (rw full at taken)
      | inr (lease, e) ↦
          let (same, fresh) = acquire-lease key w.limiter lease e in
          rw (stream_step, e)
            (open_stream-Balanced settings r fallback_id now _ lease _ live patience fresh
              (subst (λ k. Inv (acquire key w.limiter).1 (bump k live)) (sym same) (rw e at taken)))
    ]

completion_step-Balanced :
    (provider : AiProvider) (name : ProviderName) (r : NormalizedChatRequest) (w : World)
    (live : String → ℕ) (patience : Patience)
    → Inv w.limiter live
    → Balanced live patience (completion_step provider name r w)
unfolding completion_step serve
completion_step-Balanced provider name r w live patience v = elim (Result-cases (provider.chat r)) [
  | inl (a, e) ↦ rw (completion_step, e) v
  | inr (x, e) ↦ rw (completion_step, e) v
]

hand_over-Balanced :
    (provider : AiProvider) (name : ProviderName) (settings : ChatSettings)
    (r : NormalizedChatRequest) (principal : ApiKeyPrincipal) (fallback_id : String) (now : ℕ)
    (streams : Bool) (w : World) (live : String → ℕ) (patience : Patience)
    → Inv w.limiter live
    → Balanced live patience
        (hand_over provider name settings r principal fallback_id now streams w)
unfolding hand_over
hand_over-Balanced provider name settings r principal fallback_id now true w live patience v =
    stream_step-Balanced provider name settings r principal fallback_id now w live patience v
hand_over-Balanced provider name settings r principal fallback_id now false w live patience v =
    completion_step-Balanced provider name r w live patience v

dispatch-Balanced :
    (providers : ProviderName → AiProvider) (settings : ChatSettings) (r : NormalizedChatRequest)
    (principal : ApiKeyPrincipal) (fallback_id : String) (now : ℕ) (w : World) (live : String → ℕ)
    (patience : Patience)
    → Inv w.limiter live
    → Balanced live patience (dispatch providers settings r principal fallback_id now w)
unfolding dispatch
dispatch-Balanced providers settings r principal fallback_id now w live patience v =
    elim (Result-cases (provider_for_model settings.models r.model)) [
      | inr (x, e) ↦ rw (dispatch, e) v
      | inl (name, e) ↦
          rw (dispatch, e)
            (hand_over-Balanced (providers name) name settings r principal fallback_id now r.stream
              _ live patience v)
    ]

after_policy-Balanced :
    (re : RegexModule) (scanner : Scanner) (providers : ProviderName → AiProvider)
    (settings : ChatSettings) (r : NormalizedChatRequest) (principal : ApiKeyPrincipal)
    (fallback_id : String) (now : ℕ) (w : World) (step : Result Exception Unit × RequestState)
    (live : String → ℕ) (patience : Patience)
    → Inv w.limiter live
    → Balanced live patience
        (after_policy re scanner providers settings r principal fallback_id now w step)
unfolding after_policy
after_policy-Balanced re scanner providers settings r principal fallback_id now w (raise e, s) live
      patience v =
    v
after_policy-Balanced re scanner providers settings r principal fallback_id now w (ok u, s) live
      patience v =
    dispatch-Balanced providers settings _ principal fallback_id now _ live patience v

-- However a chat request goes (refused, answered, failed before or while it streams, late, or left by
-- its client at any piece), once it is over the limiter's books stand for exactly the live leases of
-- every key that there were before it: no slot is lost and none is given back twice.
pub create_chat_completion-Balanced :
    (re : RegexModule) (scanner : Scanner) (providers : ProviderName → AiProvider)
    (settings : ChatSettings) (payload : ChatCompletionRequest) (principal : ApiKeyPrincipal)
    (fallback_id : String) (now : ℕ) (w : World) (live : String → ℕ) (patience : Patience)
    → Inv w.limiter live
    → Inv
        (answered patience (
          create_chat_completion re scanner providers settings payload principal fallback_id now
            w)).1.limiter
        live
unfolding create_chat_completion
create_chat_completion-Balanced re scanner providers settings payload principal fallback_id now w
      live patience v =
    let r = to_normalized payload in
    after_policy-Balanced re scanner providers settings r principal fallback_id now w
      (policy_step re settings r (named r w).state) live patience v
