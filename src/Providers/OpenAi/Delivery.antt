-- ===== src/Providers/OpenAi/Delivery.antt =====
-- app/providers/openai_provider.py: what `chat_stream` keeps of the vendor's events.
use Prim.Native.String
use ai_serving_backend.Prelude.{String, Option, none, some, List, [], ◌∷◌, ◌++◌}
use ai_serving_backend.Request.{NormalizedUsage}
use ai_serving_backend.Schemas.{NormalizedStreamChunk}
use ai_serving_backend.Schemas.Responses.{or_default}
use ai_serving_backend.Providers.OpenAi.{
  OpenAiResponse, Choice, usage_from_openai, some_usage, OpenAiUsage, usage_chunk, choice_chunk,
}

-- The text of an event: the content of its first choice.
abbrev pub choices_text : List Choice → String
choices_text [] = ""
choices_text (c ∷ cs) = or_default c.content ""

abbrev pub events_text : List OpenAiResponse → String
events_text [] = ""
events_text (e ∷ es) = String.◌++◌ (choices_text e.choices) (events_text es)

-- The usage of the last event that has one.
abbrev pub events_usage : Option NormalizedUsage → List OpenAiResponse → Option NormalizedUsage
events_usage usage [] = usage
events_usage usage (e ∷ es) =
    events_usage (elim e.usage [ none ↦ usage | some v ↦ some (usage_from_openai v) ]) es

-- The round of the loop for one event, told by its choices and its usage.
abbrev chunk_for : OpenAiResponse → List Choice → Option OpenAiUsage → Option NormalizedStreamChunk
chunk_for e [] none = none
chunk_for e [] (some u) = some (usage_chunk e (some (usage_from_openai u)))
chunk_for e (c ∷ cs) usage = some (record (choice_chunk e c) { usage = some_usage usage })

abbrev kept : Option NormalizedStreamChunk → List NormalizedStreamChunk → List NormalizedStreamChunk
kept none cs = cs
kept (some c) cs = c ∷ cs
