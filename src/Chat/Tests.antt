-- ===== src/Chat/Tests.antt =====
-- Chat requests against a provider that streams two chunks.
use ai_serving_backend.Prelude.{
  String, ◌≡◌, refl, true, none, some, List, [], ◌∷◌, map, str_eq, if◌then◌else◌, ok, raise, arith,
}
use ai_serving_backend.Prelude.Dict
use ai_serving_backend.Request.{fresh}
use ai_serving_backend.Errors.{api, policy_violation_error}
use ai_serving_backend.Schemas.{ChatCompletionRequest, NormalizedStreamChunk}
use ai_serving_backend.Registry.{ProviderName}
use ai_serving_backend.Policy.{RegexModule, PolicyMatch}
use ai_serving_backend.Pii.{Scanner}
use ai_serving_backend.Streaming.{init}
use ai_serving_backend.Streaming.Invariant.{Inv, init-Inv}
use ai_serving_backend.Auth.{ApiKeyPrincipal}
use ai_serving_backend.Chat.Stream.{
  yields, stops, Arrival, Piece, Generator, to_sse, then_pieces, stream_body,
  next_chunk_with_deadline,
}
use ai_serving_backend.Chat.Stream.Delivery.{sent, stream_body-Heard}
use ai_serving_backend.Chat.Stream.Endings.{Ending, Heard, last_usage, ending}
use ai_serving_backend.Chat.Dispatch.{block, ChatSettings, AiProvider, World, answered}
use ai_serving_backend.Chat.Handler.{create_chat_completion}
use ai_serving_backend.Chat.Handler.Leases.{create_chat_completion-Balanced}

abbrev whole_text : RegexModule
whole_text = record {
  Pattern = String;
  compile_ignorecase = λ p. some p;
  count_matches = λ p t. if str_eq p t then 1 else 0;
}

abbrev finds_nothing : Scanner
finds_nothing = record {
  find_email = λ t. [];
  find_rrn = λ t. [];
  find_card = λ t. [];
  find_phone = λ t. [];
}

abbrev text_chunk : String → NormalizedStreamChunk
text_chunk t = record {
  id = none;
  model = none;
  role = none;
  delta = t;
  finish_reason = none;
  usage = none;
}

abbrev arrivals : List Arrival
arrivals =
    record { pause = 0; wait = 2; outcome = yields (text_chunk "he") }
    ∷ record { pause = 1; wait = 1; outcome = yields (text_chunk "llo") }
    ∷ record { pause = 0; wait = 1; outcome = stops }
    ∷ []

abbrev streams : ProviderName → AiProvider
streams name = record {
  chat = λ r. raise (api policy_violation_error);
  chat_stream = λ r. ok arrivals;
}

abbrev settings : ChatSettings
settings = record {
  policy_mode = block;
  forbidden_patterns = "r1=secret" ∷ [];
  pii_masking_enabled = true;
  pii_types = "email" ∷ [];
  stream_max_duration_seconds = 30;
  models = record { openai_models = "m" ∷ []; anthropic_models = [] };
}

abbrev asks : String → ChatCompletionRequest
asks text = record {
  model = "m";
  messages = record { role = "user"; content = text } ∷ [];
  stream = true;
  temperature = none;
  max_tokens = none;
}

abbrev caller : ApiKeyPrincipal
caller = record { api_key_hash = "k"; api_key_id = none; org_id = none; scopes = "chat" ∷ [] }

abbrev world : World
world = record { state = fresh; limiter = init 2; asked = []; closed = 0 }

abbrev match : PolicyMatch
match = record { rule_id = "r1"; count = 1; severity = "medium" }

-- providers that refuse every request but the one that is expected
abbrev picky : ProviderName → AiProvider
picky name = record {
  chat = λ r. raise (api policy_violation_error);
  chat_stream = λ r. if str_eq r.model "m" then ok arrivals else raise (api policy_violation_error);
}

create_chat_completion-Balanced_example :
    Inv
      (answered (some 0) (
        create_chat_completion whole_text finds_nothing streams settings
          (asks "hi")
          caller
          "f"
          5
          world)).1.limiter
      (λ k. 0)
create_chat_completion-Balanced_example =
    create_chat_completion-Balanced whole_text finds_nothing streams settings (asks "hi") caller "f"
      5 world (λ k. 0) (some 0) (init-Inv 2 (ground arith))

abbrev generator : Generator
generator = record { model = "m"; fallback_id = "f"; deadline = 30 }

sent_pieces :
    (stream_body generator none arrivals 5 none fresh).0
    ≡ to_sse generator (text_chunk "he") ∷ to_sse generator (text_chunk "llo") ∷ Piece.done ∷ []
unfolding stream_body next_chunk_with_deadline
sent_pieces = refl

stream_body-Heard_example :
    (chunks : List NormalizedStreamChunk) × (end : Ending) × Heard 30 5 arrivals chunks end
    × (stream_body generator (some (text_chunk "oh ")) arrivals 5 none fresh
        ≡ then_pieces
            (map (sent generator) (text_chunk "oh " ∷ chunks))
            (ending (last_usage none (text_chunk "oh " ∷ chunks)) end fresh))
stream_body-Heard_example = stream_body-Heard generator (some (text_chunk "oh ")) 5 arrivals fresh
