-- ===== src/Smoke/Sse.antt =====
-- scripts/smoke_provider.py: `parse_sse_body`. `json.loads` is an argument: the value, or the text of
-- the JSONDecodeError.
mod DataLines
pub mod Payloads
pub mod Roundtrip
use Prim.Native.String
use ai_serving_backend.Prelude.{
  String, Bool, true, false, not, ◌&&◌, ◌||◌, Option, none, some, List, [], ◌∷◌, ◌++◌, str_eq,
  if◌then◌else◌, Result, ok, raise, ◌>>=◌,
}
use ai_serving_backend.Prelude.Text.{strip}
use ai_serving_backend.Prelude.Text.Lines.{splitlines, startswith, removeprefix}
use ai_serving_backend.Json.{
  Json, null, object, Items, no_items, item, no_members, truthy, is_null, PyError, get, iterate,
}

-- the four results, in the order of the code
pub record SseBody : Type 0 where
  pub chunks : List Json
  pub saw_done : Bool
  pub saw_usage : Bool
  pub parse_errors : List String

abbrev pub nothing_seen : SseBody
nothing_seen = record { chunks = []; saw_done = false; saw_usage = false; parse_errors = [] }

-- value or {}
abbrev or_empty : Option Json → Json
or_empty none = object no_members
or_empty (some v) = if truthy v then v else object no_members

abbrev kept_content : Option Json → List Json
kept_content none = []
kept_content (some v) = if truthy v then v ∷ [] else []

-- the content of one choice, if it has any
unfoldable pub choice_content : Json → Result PyError (List Json)
unfolding get truthy
choice_content choice = do
  delta ← get "delta" choice
  content ← get "content" (or_empty delta)
  ok (kept_content content)

unfoldable pub choices_content : Items → Result PyError (List Json)
unfolding choice_content
choices_content no_items = ok []
choices_content (item c cs) = do
  content ← choice_content c
  rest ← choices_content cs
  ok (content ++ rest)

abbrev not_none : Option Json → Bool
not_none none = false
not_none (some v) = not (is_null v)

-- payload.get("choices", [])
abbrev choices_of : Option Json → Result PyError Items
choices_of none = ok no_items
choices_of (some v) = iterate v

unfoldable pub read_payload : Json → SseBody → Result PyError SseBody
unfolding get iterate choices_content
read_payload payload seen = do
  usage ← get "usage" payload
  choices ← get "choices" payload
  items ← choices_of choices
  contents ← choices_content items
  ok (record seen {
    chunks = seen.chunks ++ contents;
    saw_usage = seen.saw_usage || not_none usage;
  })

module _ (loads : String → Result String Json) where
  abbrev read_loaded : Result String Json → SseBody → Result PyError SseBody
  read_loaded (raise e) seen = ok (record seen { parse_errors = seen.parse_errors ++ (e ∷ []) })
  read_loaded (ok payload) seen = read_payload payload seen

  -- one round of the loop
  unfoldable pub read_line : String → SseBody → Result PyError SseBody
  read_line line seen =
      let content = strip (removeprefix line "data:") in
      if not (startswith line "data:")
      then ok seen
      else if str_eq content "[DONE]"
      then ok (record seen { saw_done = true })
      else read_loaded (loads content) seen

  unfoldable pub read_lines : List String → SseBody → Result PyError SseBody
  unfolding read_line
  read_lines [] seen = ok seen
  read_lines (line ∷ lines) seen = read_line line seen >>= read_lines lines

  unfoldable pub parse_sse_body : String → Result PyError SseBody
  unfolding read_lines splitlines
  parse_sse_body body = read_lines (splitlines body) nothing_seen
