-- ===== src/Smoke/Sse/Payloads.antt =====
-- What `parse_sse_body` reads of the JSON values that app/routers/chat.py sends.
use ai_serving_backend.Prelude.{
  ℕ, String, ◌≡◌, refl, Bool, true, false, ◌||◌, Option, none, some, List, [], ◌∷◌, ◌++◌, str_eq,
  ok, if◌then◌else◌, Bool-cases, inl, inr, is_some, ◌>>=◌,
}
use mathlib.Core.List.{append-nil}
use ai_serving_backend.Request.{NormalizedUsage}
use ai_serving_backend.Schemas.Responses.{ChunkChoice}
use ai_serving_backend.Errors.{ErrorBody}
use ai_serving_backend.Json.{Json, text, object, no_members, get, truthy}
use ai_serving_backend.Smoke.Sse.{
  SseBody, or_empty, kept_content, choice_content, choices_content, read_payload,
}
use ai_serving_backend.Chat.Stream.Render.{
  unless_none, dump_choice, dump_choices, dump_chunk, dump_error,
}

-- The content of a choice, if it has any.
abbrev pub content_text : Option String → List Json
content_text none = []
content_text (some t) = if str_eq t "" then [] else text t ∷ []

abbrev pub choices_text : List ChunkChoice → List Json
choices_text [] = []
choices_text (c ∷ cs) = content_text c.content ++ choices_text cs

get-content :
    (role content : Option String)
    → (get "content" (
          or_empty
            (some (object (unless_none "role" role (unless_none "content" content no_members)))))
        >>= λ v. ok (kept_content v))
      ≡ ok (content_text content)
unfolding get truthy
get-content none none = refl
get-content (some r) none = refl
get-content none (some t) = elim (Bool-cases (str_eq t "")) [
  | inl e ↦ rw e refl
  | inr e ↦ rw e refl
]
get-content (some r) (some t) = elim (Bool-cases (str_eq t "")) [
  | inl e ↦ rw e refl
  | inr e ↦ rw e refl
]

choice_content-dump :
    (c : ChunkChoice) → choice_content (dump_choice c) ≡ ok (content_text c.content)
unfolding choice_content dump_choice
choice_content-dump c = get-content c.role c.content

choices_content-dump :
    (cs : List ChunkChoice) → choices_content (dump_choices cs) ≡ ok (choices_text cs)
unfolding choices_content dump_choices
choices_content-dump [] = refl
choices_content-dump (c ∷ cs) = rw (choice_content-dump c, choices_content-dump cs) refl

abbrev with_usage : Bool → SseBody → SseBody
with_usage b seen = record seen { saw_usage = seen.saw_usage || b }

-- A chunk adds the contents of its choices, and tells whether it has a usage.
pub read_payload-dump_chunk :
    (created : ℕ) (id model : String) (cs : List ChunkChoice) (usage : Option NormalizedUsage)
    (seen : SseBody)
    → read_payload
        (dump_chunk created (record { id = id; model = model; choices = cs; usage = usage }))
        seen
      ≡ ok (record seen {
        chunks = seen.chunks ++ choices_text cs;
        saw_usage = seen.saw_usage || is_some usage;
      })
unfolding read_payload dump_chunk
read_payload-dump_chunk created id model cs none seen = rw (choices_content-dump cs) refl
read_payload-dump_chunk created id model cs (some u) seen = rw (choices_content-dump cs) refl

pub false_or : (b : Bool) → (b || false) ≡ b
false_or true = refl
false_or false = refl

pub or_true : (b : Bool) → (b || true) ≡ true
or_true true = refl
or_true false = refl

pub or_assoc : (a b c : Bool) → ((a || b) || c) ≡ (a || (b || c))
or_assoc true b c = refl
or_assoc false b c = refl

-- An error adds nothing.
pub read_payload-dump_error :
    (e : ErrorBody) (seen : SseBody) → read_payload (dump_error e) seen ≡ ok seen
unfolding read_payload dump_error choices_content
read_payload-dump_error e seen = rw (append-nil seen.chunks, false_or seen.saw_usage) refl
