-- ===== src/Chat/Stream/Render.antt =====
-- app/routers/chat.py: `_sse_data`, `_sse_event` and the text of each piece of an event stream;
-- app/schemas.py: `model_dump_json_line`. The two JSON encoders, `json.dumps` and pydantic's, are
-- arguments; the time at which a chunk is made is one too.
use Prim.Native.String
use ai_serving_backend.Prelude.{ℕ, String, Option, none, some, List, [], ◌∷◌}
use ai_serving_backend.Request.{NormalizedUsage}
use ai_serving_backend.Schemas.Responses.{ChunkChoice, ChatCompletionChunk}
use ai_serving_backend.Errors.{ErrorBody}
use ai_serving_backend.Json.{
  Json, null, num, text, array, object, Items, no_items, item, Members, no_members, member,
}
use ai_serving_backend.Chat.Stream.{Piece, data_chunk, data_error, event_error, done}

pub record JsonEncoders : Type 0 where
  -- json.dumps(value, ensure_ascii=False)
  pub dumps : Json → String
  -- pydantic's text of a dumped model
  pub model_dump_json : Json → String

-- an entry that `exclude_none` leaves out when it is None
abbrev pub unless_none : String → Option String → Members → Members
unless_none key none ms = ms
unless_none key (some t) ms = member key (text t) ms

abbrev dump_usage : NormalizedUsage → Json
dump_usage u = object (
    member "prompt_tokens" (num u.prompt_tokens) (
      member "completion_tokens" (num u.completion_tokens)
        (member "total_tokens" (num u.total_tokens) no_members)))

abbrev dump_usage_entry : Option NormalizedUsage → Members
dump_usage_entry none = no_members
dump_usage_entry (some u) = member "usage" (dump_usage u) no_members

unfoldable pub dump_choice : ChunkChoice → Json
dump_choice c = object (
    member "index" (num 0) (
      member "delta"
        (object (unless_none "role" c.role (unless_none "content" c.content no_members)))
        (unless_none "finish_reason" c.finish_reason no_members)))

unfoldable pub dump_choices : List ChunkChoice → Items
unfolding dump_choice
dump_choices [] = no_items
dump_choices (c ∷ cs) = item (dump_choice c) (dump_choices cs)

-- model_dump(exclude_none=True) of a ChatCompletionChunk
unfoldable pub dump_chunk : ℕ → ChatCompletionChunk → Json
unfolding dump_choices
dump_chunk created c = object (
    member "id" (text c.id) (
      member "object" (text "chat.completion.chunk") (
        member "created" (num created) (
          member "model" (text c.model)
            (member "choices" (array (dump_choices c.choices)) (dump_usage_entry c.usage))))))

abbrev text_or_null : Option String → Json
text_or_null none = null
text_or_null (some t) = text t

-- the dictionary that `openai_error_body` returns
unfoldable pub dump_error : ErrorBody → Json
dump_error e = object (
    member "error"
      (object (
        member "message" (text e.message)
          (member "type" (text e.type) (member "code" (text_or_null e.code) no_members))))
      no_members)

abbrev pub ends_piece : String → String
ends_piece payload = String.◌++◌ payload "\n\n"

-- _sse_data
unfoldable pub sse_data : String → String
sse_data payload = String.◌++◌ "data: " (ends_piece payload)

-- _sse_event
unfoldable pub sse_event : String → String → String
sse_event event payload =
    String.◌++◌ "event: " (String.◌++◌ event (String.◌++◌ "\ndata: " (ends_piece payload)))

module _ (encoders : JsonEncoders) (created : ℕ) where
  -- what `_stream_chunks` yields for a piece
  unfoldable pub render_piece : Piece → String
  unfolding dump_chunk dump_error sse_data sse_event
  render_piece (data_chunk c) = sse_data (encoders.model_dump_json (dump_chunk created c))
  render_piece (data_error e) = sse_data (encoders.dumps (dump_error e))
  render_piece (event_error e) = sse_event "error" (encoders.dumps (dump_error e))
  render_piece done = sse_data "[DONE]"

  -- the text of the whole response
  unfoldable pub render : List Piece → String
  unfolding render_piece
  render [] = ""
  render (p ∷ ps) = String.◌++◌ (render_piece p) (render ps)
