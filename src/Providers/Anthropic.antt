-- ===== src/Providers/Anthropic.antt =====
-- app/providers/anthropic_provider.py.
use Prim.Native.String
use ai_serving_backend.Prelude.{
  ℕ, ◌+◌, String, ◌≡◌, refl, ap, Bool, Option, none, some, List, [], ◌∷◌, ◌++◌, map, filter,
  is_empty, str_eq, ◌==◌, if◌then◌else◌, Result, ok, raise, ◌>>=◌, Bool-cases, inl, inr, not,
}
use ai_serving_backend.Prelude.Text.{join}
use ai_serving_backend.Prelude.Int.{ℤ, pos, negsuc}
use ai_serving_backend.Request.{NormalizedMessage, NormalizedUsage}
use ai_serving_backend.Schemas.{
  Float, NormalizedChatRequest, NormalizedChatResponse, NormalizedStreamChunk,
}
use ai_serving_backend.Errors.{Exception}
use ai_serving_backend.Providers.{Raised, translate, get_client}

-- FINISH_REASON_MAP.get(reason, "stop")
unfoldable pub normalize_finish_reason : Option String → Option String
normalize_finish_reason none = none
normalize_finish_reason (some r) =
    if str_eq r "max_tokens"
    then some "length"
    else if str_eq r "tool_use"
    then some "tool_calls"
    else some "stop"

pub record AnthropicParams : Type 0 where
  pub model : String
  pub messages : List NormalizedMessage
  pub max_tokens : ℤ
  pub system : Option String
  pub temperature : Option Float

abbrev pub is_system : NormalizedMessage → Bool
is_system m = str_eq m.role "system"

-- the loop: the system messages' texts, and the other messages
unfoldable pub split_messages : List NormalizedMessage → List String × List NormalizedMessage
split_messages [] = ([], [])
split_messages (m ∷ ms) =
    let (system_messages, messages) = split_messages ms in
    if is_system m then (m.content ∷ system_messages, messages) else (system_messages, m ∷ messages)

-- request.max_tokens or default
abbrev tokens_or : Option ℤ → ℤ → ℤ
tokens_or none default = default
tokens_or (some (pos n)) default = if n == 0 then default else pos n
tokens_or (some (negsuc n)) default = negsuc n

unfoldable pub to_anthropic_params : ℤ → NormalizedChatRequest → AnthropicParams
unfolding split_messages join
to_anthropic_params default_max_tokens r =
    let (system_messages, messages) = split_messages r.messages in
    record {
      model = r.model;
      messages = messages;
      max_tokens = tokens_or r.max_tokens default_max_tokens;
      system = if is_empty system_messages then none else some (join "\n\n" system_messages);
      temperature = r.temperature;
    }

-- a message of the client: its usage may be missing, and each of its two counts too; a block may have
-- no text
pub record AnthropicMessage : Type 0 where
  pub id : String
  pub model : String
  pub content : List (Option String)
  pub stop_reason : Option String
  pub usage : Option (Option ℕ × Option ℕ)

abbrev count_or_zero : Option ℕ → ℕ
count_or_zero none = 0
count_or_zero (some n) = n

-- _usage_token of both keys
unfoldable pub usage_of : Option (Option ℕ × Option ℕ) → NormalizedUsage
usage_of none = record { prompt_tokens = 0; completion_tokens = 0; total_tokens = 0 }
usage_of (some (input, output)) =
    let input_tokens = count_or_zero input in
    let output_tokens = count_or_zero output in
    record {
      prompt_tokens = input_tokens;
      completion_tokens = output_tokens;
      total_tokens = input_tokens + output_tokens;
    }

-- _extract_text: the texts one after the other; an empty one adds nothing
unfoldable pub extract_text : List (Option String) → String
extract_text [] = ""
extract_text (none ∷ blocks) = extract_text blocks
extract_text (some t ∷ blocks) = String.◌++◌ t (extract_text blocks)

unfoldable pub response_of : AnthropicMessage → NormalizedChatResponse
unfolding extract_text normalize_finish_reason usage_of
response_of m = record {
  id = m.id;
  model = m.model;
  message = record { role = "assistant"; content = extract_text m.content };
  finish_reason = normalize_finish_reason m.stop_reason;
  usage = usage_of m.usage;
}

abbrev answer_of : {A B : Type 0} → (A → B) → Result Raised A → Result Exception B
answer_of f (ok a) = ok (f a)
answer_of f (raise e) = raise (translate "anthropic" e)

-- chat
unfoldable pub chat :
    (AnthropicParams → Result Raised AnthropicMessage)
    → Option String
    → ℤ
    → NormalizedChatRequest
    → Result Exception NormalizedChatResponse
unfolding get_client to_anthropic_params response_of translate
chat create api_key default_max_tokens r =
    get_client "Anthropic provider is not configured" api_key >>= λ _.
    answer_of response_of (create (to_anthropic_params default_max_tokens r))

-- what the client's stream gives: texts, and then the final message or an exception
pub record AnthropicStream : Type 0 where
  pub texts : List String
  pub final : Result Raised AnthropicMessage

abbrev text_chunk : String → String → NormalizedStreamChunk
text_chunk model text = record {
  id = none;
  model = some model;
  role = none;
  delta = text;
  finish_reason = none;
  usage = none;
}

unfoldable pub final_chunk : AnthropicMessage → NormalizedStreamChunk
unfolding normalize_finish_reason usage_of
final_chunk m = record {
  id = some m.id;
  model = some m.model;
  role = none;
  delta = "";
  finish_reason = normalize_finish_reason m.stop_reason;
  usage = some (usage_of m.usage);
}

abbrev last_of : Result Raised AnthropicMessage → List (Result Exception NormalizedStreamChunk)
last_of (ok m) = ok (final_chunk m) ∷ []
last_of (raise e) = raise (translate "anthropic" e) ∷ []

-- what the generator yields, and the exception it ends with, if any
unfoldable pub stream_items :
    String → AnthropicStream → List (Result Exception NormalizedStreamChunk)
unfolding final_chunk translate
stream_items model s = map (λ t. ok (text_chunk model t)) s.texts ++ last_of s.final

-- chat_stream: opening the stream may raise
unfoldable pub chat_stream :
    (AnthropicParams → Result Raised AnthropicStream)
    → Option String
    → ℤ
    → NormalizedChatRequest
    → List (Result Exception NormalizedStreamChunk)
unfolding get_client to_anthropic_params stream_items translate
chat_stream start_stream api_key default_max_tokens r =
    elim (get_client "Anthropic provider is not configured" api_key) [
      | raise e ↦ raise e ∷ []
      | ok _ ↦ elim (start_stream (to_anthropic_params default_max_tokens r)) [
        | raise e ↦ raise (translate "anthropic" e) ∷ []
        | ok s ↦ stream_items r.model s
      ]
    ]

split_messages_lem :
    (ms : List NormalizedMessage)
    → ((split_messages ms).0 ≡ map (λ m. m.content) (filter is_system ms))
      × ((split_messages ms).1 ≡ filter (λ m. not (is_system m)) ms)
unfolding split_messages
split_messages_lem [] = (refl, refl)
split_messages_lem (m ∷ ms) = elim (Bool-cases (is_system m)) [
  | inl it ↦ rw it (ap (◌∷◌ m.content) (split_messages_lem ms).0, (split_messages_lem ms).1)
  | inr other ↦ rw other ((split_messages_lem ms).0, ap (◌∷◌ m) (split_messages_lem ms).1)
]

-- The parameters for Anthropic keep every message: those that are not the system's in their order, and
-- the texts of the system's, in their order, joined by blank lines, as the system prompt, which is left
-- out exactly when there is no system message.
pub to_anthropic_params-messages :
    (default_max_tokens : ℤ) (r : NormalizedChatRequest)
    → let p = to_anthropic_params default_max_tokens r in
      let texts = map (λ m. m.content) (filter is_system r.messages) in
      (p.messages ≡ filter (λ m. not (is_system m)) r.messages)
      × (p.system ≡ (if is_empty texts then none else some (join "\n\n" texts)))
unfolding to_anthropic_params
to_anthropic_params-messages default_max_tokens r = (
  (split_messages_lem r.messages).1,
  ap (λ ts. if is_empty ts then none else some (join "\n\n" ts)) (split_messages_lem r.messages).0,
)
