-- ===== src/Chat/Stream.antt =====
-- app/routers/chat.py: `_next_chunk_with_deadline`, `_stream_timeout_only` and `_stream_chunks`. A
-- piece of the event stream is kept as a value in place of its JSON text.
pub mod Endings
pub mod Leaving
pub mod Delivery
pub mod Render
pub mod Termination
mod Tests
use ai_serving_backend.Prelude.{
  ℕ, zero, suc, ◌+◌, ◌-◌, ◌≤◌, String, Bool, true, false, Option, none, some, List, [], ◌∷◌, ◌++◌,
  ltb, leb, if◌then◌else◌,
}
use ai_serving_backend.Request.{RequestState, NormalizedUsage}
use ai_serving_backend.Schemas.{NormalizedStreamChunk}
use ai_serving_backend.Schemas.Responses.{ChatCompletionChunk, chunk_from_normalized}
use ai_serving_backend.Errors.{
  ApiError, Exception, api, http, validation, other, ErrorBody, openai_error_body,
}
use ai_serving_backend.Streaming.{StreamLease, StreamConcurrencyLimiter, release}

pub data Outcome : Type 0 where
  yields : NormalizedStreamChunk → Outcome
  -- StopAsyncIteration
  stops : Outcome
  fails : Exception → Outcome

pub record Arrival : Type 0 where
  pub pause : ℕ
  pub wait : ℕ
  pub outcome : Outcome

-- what awaiting the next chunk comes to, with the time after it
pub data Next : Type 0 where
  got : NormalizedStreamChunk → ℕ → Next
  stopped : ℕ → Next
  timed_out : ℕ → Next
  failed : Exception → ℕ → Next

abbrev pub arrived : Outcome → ℕ → Next
arrived (yields c) now = got c now
arrived stops now = stopped now
arrived (fails e) now = failed e now

unfoldable pub next_chunk_with_deadline : ℕ → ℕ → Arrival → Next
next_chunk_with_deadline deadline now a =
    let asked = now + a.pause in
    let remaining = deadline - asked in
    if leb deadline asked
    then timed_out asked
    else if ltb a.wait remaining
    then arrived a.outcome (asked + a.wait)
    else timed_out deadline

pub data Piece : Type 0 where
  data_chunk : ChatCompletionChunk → Piece
  data_error : ErrorBody → Piece
  event_error : ErrorBody → Piece
  done : Piece

abbrev pub stream_timeout_sse : Piece
stream_timeout_sse =
    event_error (openai_error_body "Stream timed out" "server_error" (some "stream_timeout"))

abbrev pub internal_error_sse : Piece
internal_error_sse =
    data_error (openai_error_body "Internal server error" "server_error" (some "internal_error"))

-- a request.state that tells of a failure
abbrev pub failed_state : String → ℕ → RequestState → RequestState
failed_state error_type status s = record s {
  error_type = some error_type;
  audit_status_code = some status;
}

abbrev pub timed_out_state : RequestState → RequestState
timed_out_state s = failed_state "stream_timeout" 504 s

unfoldable pub stream_timeout_only : RequestState → List Piece × RequestState
stream_timeout_only s = (stream_timeout_sse ∷ [], timed_out_state s)

-- the two `except` clauses
unfoldable pub stream_failure : Exception → RequestState → List Piece × RequestState
stream_failure (api e) s = (
  data_error (openai_error_body e.message e.error_type e.code) ∷ [],
  failed_state e.error_type e.status_code s,
)
stream_failure (http _ _ _) s = (internal_error_sse ∷ [], failed_state "server_error" 500 s)
stream_failure (validation _) s = (internal_error_sse ∷ [], failed_state "server_error" 500 s)
stream_failure other s = (internal_error_sse ∷ [], failed_state "server_error" 500 s)

-- nonlocal token_usage in to_sse
abbrev pub usage_after : Option NormalizedUsage → NormalizedStreamChunk → Option NormalizedUsage
usage_after usage c = elim c.usage [ none ↦ usage | some u ↦ some u ]

abbrev pub then_pieces : List Piece → List Piece × RequestState → List Piece × RequestState
then_pieces ps (qs, s) = (ps ++ qs, s)

-- what the generator of one request has at hand
pub record Generator : Type 0 where
  pub model : String
  pub fallback_id : String
  pub deadline : ℕ

abbrev pub to_sse : Generator → NormalizedStreamChunk → Piece
to_sse g c = data_chunk (chunk_from_normalized c g.fallback_id g.model)

-- The client takes a number of pieces and goes away, or stays (`none`). The generator is closed at
-- the `yield` of the last piece that is taken.
abbrev pub Patience : Type 0
Patience = Option ℕ

-- the code after a `yield`, unless the generator is closed there; `gone` is where it is left
abbrev pub after_yield {ℓ} : {A : Type ℓ} → Patience → A → (Patience → A) → A
after_yield none gone next = next none
after_yield (some zero) gone next = gone
after_yield (some (suc n)) gone next = next (some n)

-- the loop, without the `finally` clause
unfoldable pub stream_loop :
    Generator
    → List Arrival
    → ℕ
    → Patience
    → Option NormalizedUsage
    → RequestState
    → List Piece × RequestState
unfolding next_chunk_with_deadline stream_failure
stream_loop g [] now patience usage s = (stream_timeout_sse ∷ [], timed_out_state s)
stream_loop g (a ∷ upstream) now patience usage s =
    elim (next_chunk_with_deadline g.deadline now a) [
      | stopped _ ↦ (done ∷ [], record s { token_usage = usage })
      | timed_out _ ↦ (stream_timeout_sse ∷ [], timed_out_state s)
      | failed e _ ↦ stream_failure e s
      | got c now' ↦ then_pieces (to_sse g c ∷ []) (
          after_yield patience ([], s) (λ p. stream_loop g upstream now' p (usage_after usage c) s))
    ]

-- the body of the `try` block
unfoldable pub stream_body :
    Generator
    → Option NormalizedStreamChunk
    → List Arrival
    → ℕ
    → Patience
    → RequestState
    → List Piece × RequestState
unfolding stream_loop
stream_body g none upstream now patience s = stream_loop g upstream now patience none s
stream_body g (some c) upstream now patience s =
    then_pieces (to_sse g c ∷ [])
      (after_yield patience ([], s) (λ p. stream_loop g upstream now p (usage_after none c) s))

-- what a generator that has ended leaves: the upstream stream is closed, the lease given back
pub record Ended : Type 0 where
  pub pieces : List Piece
  pub state : RequestState
  pub limiter : StreamConcurrencyLimiter
  pub lease : StreamLease
  pub upstream_closed : Bool

unfoldable pub stream_chunks :
    Generator
    → Option NormalizedStreamChunk
    → List Arrival
    → ℕ
    → Patience
    → StreamLease
    → StreamConcurrencyLimiter
    → RequestState
    → Ended
unfolding stream_body release
stream_chunks g first upstream now patience lease limiter s =
    let (pieces, state) = stream_body g first upstream now patience s in
    let (lease', limiter') = release lease limiter in
    record {
      pieces = pieces;
      state = state;
      limiter = limiter';
      lease = lease';
      upstream_closed = true;
    }
