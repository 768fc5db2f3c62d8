-- ===== src/Schemas.antt =====
-- app/schemas.py and app/normalized.py: the request's validators and its internal form; Responses
-- has the forms of the answer. The shape of the JSON body (field names and types) is pydantic's part:
-- a `Body` is what is left to check: `max_tokens` is the whole number that it is read as, and a
-- temperature the float, which may be one of the three that `json.loads` takes beside the finite ones.
pub mod Responses
pub mod Validation
mod Tests
use Prim.Native.String
use ai_serving_backend.Prelude.{
  ℕ, zero, suc, ◌*◌, ◌^◌, String, Bool, true, false, not, ◌&&◌, ◌||◌, Option, none, some, List, [],
  ◌∷◌, ◌++◌, str_eq, ltb, leb, ◌==◌, if◌then◌else◌, length, is_some, map, Result, ok, raise,
}
use ai_serving_backend.Prelude.Text.{str_length, str_nat}
use ai_serving_backend.Prelude.Int.{ℤ, pos, negsuc, exceeds}
use ai_serving_backend.Request.{NormalizedMessage, NormalizedUsage}
use ai_serving_backend.Errors.{ValidationError}

-- a finite number: mantissa / 10 ^ places, negated when `negative`
pub record Number : Type 0 where
  pub negative : Bool
  pub mantissa : ℕ
  pub places : ℕ

pub data Float : Type 0 where
  finite : Number → Float
  nan : Float
  -- whether it is the negative one
  infinity : Bool → Float

pub record Limits : Type 0 where
  pub max_message_chars : ℕ
  pub max_model_name_chars : ℕ
  pub max_messages : ℕ
  pub max_output_tokens : ℕ

pub record ChatMessage : Type 0 where
  pub role : String
  pub content : String

-- ChatCompletionRequest; before its validators have run, the fields of the body
pub record ChatCompletionRequest : Type 0 where
  pub model : String
  pub messages : List ChatMessage
  pub stream : Bool
  pub temperature : Option Float
  pub max_tokens : Option ℤ

pub record NormalizedChatRequest : Type 0 where
  pub model : String
  pub messages : List NormalizedMessage
  pub stream : Bool
  pub temperature : Option Float
  pub max_tokens : Option ℤ

pub record NormalizedChatResponse : Type 0 where
  pub id : String
  pub model : String
  pub message : NormalizedMessage
  pub finish_reason : Option String
  pub usage : NormalizedUsage

pub record NormalizedStreamChunk : Type 0 where
  pub id : Option String
  pub model : Option String
  pub role : Option String
  pub delta : String
  pub finish_reason : Option String
  pub usage : Option NormalizedUsage

pub record Body : Type 0 where
  pub fields : ChatCompletionRequest
  -- the names of the fields that the model does not have
  pub extra : List String

abbrev refuse : List String → String → Bool → List ValidationError
refuse loc msg true = record { loc = loc; msg = some msg } ∷ []
refuse loc msg false = []

abbrev pub supported_role : String → Bool
supported_role r = str_eq r "system" || str_eq r "user" || str_eq r "assistant"

abbrev at_most : String → ℕ → String → String
at_most what n unit =
    String.◌++◌ what (String.◌++◌ " should have at most " (String.◌++◌ (str_nat n) unit))

-- ChatMessage: its role, and validate_content_length
message_errors : Limits → ℕ → ChatMessage → List ValidationError
message_errors l i m =
    refuse ("body" ∷ "messages" ∷ str_nat i ∷ "role" ∷ [])
      "Input should be 'system', 'user' or 'assistant'" (not (supported_role m.role))
    ++ refuse ("body" ∷ "messages" ∷ str_nat i ∷ "content" ∷ [])
        (at_most "Value error, String" l.max_message_chars " characters")
        (ltb l.max_message_chars (str_length m.content))

messages_errors : Limits → ℕ → List ChatMessage → List ValidationError
unfolding message_errors
messages_errors l i [] = []
messages_errors l i (m ∷ ms) = message_errors l i m ++ messages_errors l (suc i) ms

-- Field(min_length=1) and validate_messages_length, which run when every message is valid
list_errors : Limits → List ChatMessage → List ValidationError → List ValidationError
list_errors l ms (e ∷ es) = e ∷ es
list_errors l ms [] =
    refuse ("body" ∷ "messages" ∷ []) "List should have at least 1 item after validation, not 0"
      (length ms == 0)
    ++ refuse ("body" ∷ "messages" ∷ []) (at_most "Value error, List" l.max_messages " items")
        (ltb l.max_messages (length ms))

-- Field(min_length=1) and validate_model_length
model_errors : Limits → String → List ValidationError
model_errors l model =
    refuse ("body" ∷ "model" ∷ []) "String should have at least 1 character" (str_length model == 0)
    ++ refuse ("body" ∷ "model" ∷ [])
        (at_most "Value error, String" l.max_model_name_chars " characters")
        (ltb l.max_model_name_chars (str_length model))

-- ge=0.0, le=2.0, which refuse a number that is less or greater; NaN is neither
unfoldable pub temperature_in_range : Float → Bool
temperature_in_range nan = true
temperature_in_range (infinity _) = false
temperature_in_range (finite n) =
    (not n.negative || n.mantissa == 0) && (n.negative || leb n.mantissa (2 * 10 ^ n.places))

temperature_errors : Option Float → List ValidationError
unfolding temperature_in_range
temperature_errors none = []
temperature_errors (some n) =
    refuse ("body" ∷ "temperature" ∷ []) "Input should be between 0 and 2"
      (not (temperature_in_range n))

-- ge=1
unfoldable pub is_positive : ℤ → Bool
is_positive (pos n) = leb 1 n
is_positive (negsuc n) = false

-- ge=1, and validate_max_tokens, which runs on what ge=1 lets through
max_tokens_errors : Limits → Option ℤ → List ValidationError
unfolding is_positive exceeds
max_tokens_errors l none = []
max_tokens_errors l (some n) =
    if is_positive n
    then refuse ("body" ∷ "max_tokens" ∷ [])
        (String.◌++◌ "Value error, Input should be less than or equal to "
          (str_nat l.max_output_tokens))
        (exceeds l.max_output_tokens n)
    else refuse ("body" ∷ "max_tokens" ∷ []) "Input should be greater than or equal to 1" true

-- extra="forbid"
extra_errors : List String → List ValidationError
extra_errors [] = []
extra_errors (name ∷ names) =
    record { loc = "body" ∷ name ∷ []; msg = some "Extra inputs are not permitted" }
    ∷ extra_errors names

unfoldable pub errors_of : Limits → Body → List ValidationError
unfolding messages_errors list_errors model_errors temperature_errors max_tokens_errors extra_errors
errors_of l b =
    let r = b.fields in
    model_errors l r.model
    ++ list_errors l r.messages (messages_errors l 0 r.messages)
    ++ temperature_errors r.temperature
    ++ max_tokens_errors l r.max_tokens
    ++ extra_errors b.extra

abbrev accept_unless :
    List ValidationError
    → ChatCompletionRequest
    → Result (List ValidationError) ChatCompletionRequest
accept_unless [] r = ok r
accept_unless (e ∷ es) r = raise (e ∷ es)

-- ChatCompletionRequest.model_validate
unfoldable pub model_validate : Limits → Body → Result (List ValidationError) ChatCompletionRequest
unfolding errors_of
model_validate l b = accept_unless (errors_of l b) b.fields

abbrev normalized_message : ChatMessage → NormalizedMessage
normalized_message m = record { role = m.role; content = m.content }

unfoldable pub to_normalized : ChatCompletionRequest → NormalizedChatRequest
to_normalized r = record {
  model = r.model;
  messages = map normalized_message r.messages;
  stream = r.stream;
  temperature = r.temperature;
  max_tokens = r.max_tokens;
}
