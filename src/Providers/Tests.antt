-- ===== src/Providers/Tests.antt =====
-- A conversation with a system message.
use ai_serving_backend.Prelude.{String, ◌≡◌, refl, Result, ok, false, none, some, [], ◌∷◌}
use ai_serving_backend.Prelude.Text.{join}
use ai_serving_backend.Prelude.Int.{ℤ, pos}
use ai_serving_backend.Schemas.{NormalizedChatRequest}
use ai_serving_backend.Providers.Anthropic.{to_anthropic_params}
use ai_serving_backend.Providers.{Raised}
use ai_serving_backend.Providers.OpenAi.{OpenAiParams, OpenAiResponse, OpenAiStream}

abbrev conversation : NormalizedChatRequest
conversation = record {
  model = "claude";
  messages =
      record { role = "system"; content = "be brief" }
      ∷ record { role = "user"; content = "hi" }
      ∷ [];
  stream = false;
  temperature = none;
  max_tokens = none;
}

abbrev default_tokens : ℤ
default_tokens = pos 1024

system_set_apart : (to_anthropic_params default_tokens conversation).system ≡ some "be brief"
unfolding to_anthropic_params join
system_set_apart = refl

abbrev event : String → OpenAiResponse
event t = record {
  id = "e";
  model = "gpt";
  choices = record { role = none; content = some t; finish_reason = none } ∷ [];
  usage = none;
}

abbrev events : OpenAiStream
events = record { events = event "he" ∷ event "llo" ∷ []; failure = none }

abbrev starts : OpenAiParams → Result Raised OpenAiStream
starts p = ok events
