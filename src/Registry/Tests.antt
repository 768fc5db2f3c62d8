-- ===== src/Registry/Tests.antt =====
-- A model that is configured for both providers.
use ai_serving_backend.Prelude.{◌≡◌, refl, [], ◌∷◌, ok}
use ai_serving_backend.Prelude.Dict
use ai_serving_backend.Registry.{ModelSettings, anthropic, provider_for_model}

abbrev both : ModelSettings
both = record { openai_models = "m" ∷ "n" ∷ []; anthropic_models = "m" ∷ [] }

served_by_anthropic : provider_for_model both "m" ≡ ok anthropic
unfolding provider_for_model Dict.get Dict.put
served_by_anthropic = refl
