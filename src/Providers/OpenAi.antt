-- ===== src/Providers/OpenAi.antt =====
-- app/providers/openai_provider.py.
pub mod Delivery
use ai_serving_backend.Prelude.{
  ℕ, ◌+◌, String, Option, none, some, List, [], ◌∷◌, ◌++◌, filter_map, map, ◌==◌, if◌then◌else◌,
  Result, ok, raise, ◌>>=◌,
}
use ai_serving_backend.Prelude.Int.{ℤ}
use ai_serving_backend.Request.{NormalizedMessage, NormalizedUsage}
use ai_serving_backend.Schemas.{
  Float, NormalizedChatRequest, NormalizedChatResponse, NormalizedStreamChunk,
}
use ai_serving_backend.Schemas.Responses.{or_default}
use ai_serving_backend.Errors.{Exception, api, provider_api_error}
use ai_serving_backend.Providers.{Raised, translate, get_client}

pub record OpenAiParams : Type 0 where
  pub model : String
  pub messages : List NormalizedMessage
  pub temperature : Option Float
  pub max_tokens : Option ℤ

unfoldable pub to_openai_params : NormalizedChatRequest → OpenAiParams
to_openai_params r = record {
  model = r.model;
  messages = r.messages;
  temperature = r.temperature;
  max_tokens = r.max_tokens;
}

-- the client's usage: each count may be missing
pub record OpenAiUsage : Type 0 where
  pub prompt_tokens : Option ℕ
  pub completion_tokens : Option ℕ
  pub total_tokens : Option ℕ

abbrev count_or_zero : Option ℕ → ℕ
count_or_zero none = 0
count_or_zero (some n) = n

-- _usage_from_openai; a usage that is None has no counts
unfoldable pub usage_from_openai : OpenAiUsage → NormalizedUsage
usage_from_openai u =
    let prompt_tokens = count_or_zero u.prompt_tokens in
    let completion_tokens = count_or_zero u.completion_tokens in
    let total = count_or_zero u.total_tokens in
    record {
      prompt_tokens = prompt_tokens;
      completion_tokens = completion_tokens;
      total_tokens = if total == 0 then prompt_tokens + completion_tokens else total;
    }

abbrev no_usage : OpenAiUsage
no_usage = record { prompt_tokens = none; completion_tokens = none; total_tokens = none }

abbrev usage_or : Option OpenAiUsage → OpenAiUsage
usage_or none = no_usage
usage_or (some u) = u

-- a choice of a response or of an event: the role, the content, the finish reason
pub record Choice : Type 0 where
  pub role : Option String
  pub content : Option String
  pub finish_reason : Option String

pub record OpenAiResponse : Type 0 where
  pub id : String
  pub model : String
  pub choices : List Choice
  pub usage : Option OpenAiUsage

response_of : OpenAiResponse → Result Exception NormalizedChatResponse
unfolding usage_from_openai provider_api_error
response_of response = elim response.choices [
  | [] ↦ raise (
      api (
        provider_api_error (record {
          provider = some "openai";
          upstream_status = none;
          raw_message = some "OpenAI response contained no choices";
          raw_error_class = none;
          retry_after = none;
        })))
  | choice ∷ _ ↦ ok (record {
    id = response.id;
    model = response.model;
    message = record {
      role = or_default choice.role "assistant";
      content = or_default choice.content "";
    };
    finish_reason = choice.finish_reason;
    usage = usage_from_openai (usage_or response.usage);
  })
]

abbrev answered : Result Raised OpenAiResponse → Result Exception NormalizedChatResponse
answered (raise e) = raise (translate "openai" e)
answered (ok response) = response_of response

-- chat
unfoldable pub chat :
    (OpenAiParams → Result Raised OpenAiResponse)
    → Option String
    → NormalizedChatRequest
    → Result Exception NormalizedChatResponse
unfolding get_client to_openai_params response_of translate
chat create api_key r = get_client "OpenAI provider is not configured" api_key >>= λ _.
    answered (create (to_openai_params r))

abbrev pub usage_chunk : OpenAiResponse → Option NormalizedUsage → NormalizedStreamChunk
usage_chunk e usage = record {
  id = some e.id;
  model = some e.model;
  role = none;
  delta = "";
  finish_reason = none;
  usage = usage;
}

abbrev pub some_usage : Option OpenAiUsage → Option NormalizedUsage
some_usage none = none
some_usage (some u) = some (usage_from_openai u)

abbrev pub choice_chunk : OpenAiResponse → Choice → NormalizedStreamChunk
choice_chunk e choice = record {
  id = some e.id;
  model = some e.model;
  role = choice.role;
  delta = or_default choice.content "";
  finish_reason = choice.finish_reason;
  usage = some_usage e.usage;
}

abbrev pub only_usage : OpenAiResponse → Option OpenAiUsage → Option NormalizedStreamChunk
only_usage e none = none
only_usage e (some u) = some (usage_chunk e (some (usage_from_openai u)))

-- one round of the loop: an event without choices is only used for its usage
unfoldable pub chunk_of_event : OpenAiResponse → Option NormalizedStreamChunk
unfolding usage_from_openai
chunk_of_event e = elim e.choices [
  | [] ↦ only_usage e e.usage
  | choice ∷ _ ↦ some (choice_chunk e choice)
]

-- what the client's stream gives: events, and then its end or an exception
pub record OpenAiStream : Type 0 where
  pub events : List OpenAiResponse
  pub failure : Option Raised

abbrev pub failure_item : Option Raised → List (Result Exception NormalizedStreamChunk)
failure_item none = []
failure_item (some e) = raise (translate "openai" e) ∷ []

unfoldable pub stream_items : OpenAiStream → List (Result Exception NormalizedStreamChunk)
unfolding chunk_of_event translate
stream_items s = map (λ c. ok c) (filter_map chunk_of_event s.events) ++ failure_item s.failure

-- chat_stream
unfoldable pub chat_stream :
    (OpenAiParams → Result Raised OpenAiStream)
    → Option String
    → NormalizedChatRequest
    → List (Result Exception NormalizedStreamChunk)
unfolding get_client to_openai_params stream_items translate
chat_stream start_stream api_key r = elim (get_client "OpenAI provider is not configured" api_key) [
  | raise e ↦ raise e ∷ []
  | ok _ ↦ elim (start_stream (to_openai_params r)) [
    | raise e ↦ raise (translate "openai" e) ∷ []
    | ok s ↦ stream_items s
  ]
]
