-- ===== src/Schemas/Responses.antt =====
-- app/schemas.py: the forms in which an answer goes out, and what they are made from.
use ai_serving_backend.Prelude.{
  String, Bool, not, ◌&&◌, Option, none, some, List, [], ◌∷◌, str_eq, if◌then◌else◌, is_some,
}
use ai_serving_backend.Request.{NormalizedMessage, NormalizedUsage}
use ai_serving_backend.Schemas.{NormalizedChatResponse, NormalizedStreamChunk}

-- ChatCompletionResponse; `object` and `created` are left out
pub record ChatCompletionResponse : Type 0 where
  pub id : String
  pub model : String
  pub message : NormalizedMessage
  pub finish_reason : Option String
  pub usage : NormalizedUsage

unfoldable pub response_from_normalized : NormalizedChatResponse → ChatCompletionResponse
response_from_normalized r = record {
  id = r.id;
  model = r.model;
  message = r.message;
  finish_reason = r.finish_reason;
  usage = r.usage;
}

-- ChatCompletionChunkChoice with its DeltaMessage; the index is 0
pub record ChunkChoice : Type 0 where
  pub role : Option String
  pub content : Option String
  pub finish_reason : Option String

pub record ChatCompletionChunk : Type 0 where
  pub id : String
  pub model : String
  pub choices : List ChunkChoice
  pub usage : Option NormalizedUsage

-- x or default, for a string that may be None
abbrev pub or_default : Option String → String → String
or_default none default = default
or_default (some x) default = if str_eq x "" then default else x

abbrev some_text : String → Option String
some_text x = if str_eq x "" then none else some x

unfoldable pub usage_only : NormalizedStreamChunk → Bool
usage_only c =
    is_some c.usage && not (is_some c.role) && str_eq c.delta "" && not (is_some c.finish_reason)

unfoldable pub chunk_from_normalized : NormalizedStreamChunk → String → String → ChatCompletionChunk
unfolding usage_only
chunk_from_normalized c fallback_id fallback_model = record {
  id = or_default c.id fallback_id;
  model = or_default c.model fallback_model;
  choices =
      if usage_only c
      then []
      else record { role = c.role; content = some_text c.delta; finish_reason = c.finish_reason }
        ∷ [];
  usage = c.usage;
}
