-- ===== src/Registry.antt =====
-- app/providers/registry.py: which provider serves a model. The two providers are arguments of the
-- registry (app/providers/base.py); app/main.py makes one registry from the settings.
mod Tests
use Prim.Native.String
use ai_serving_backend.Prelude.{
  String, ◌≡◌, refl, ◌↔◌, Bool, true, false, Option, none, some, List, [], ◌∷◌, ◌++◌, arith, str_eq,
  eq_iff, if◌then◌else◌, map, Result, ok, raise, Option-cases, Bool-cases, inl, inr,
}
use ai_serving_backend.Prelude.Dict
use ai_serving_backend.Prelude.Dict.{Dict}
use ai_serving_backend.Errors.{Exception, api, api_error, unsupported_model}

-- the names of the two entries of `_providers`
pub data ProviderName : Type 0 where
  openai anthropic : ProviderName

abbrev pub provider_text : ProviderName → String
provider_text openai = "openai"
provider_text anthropic = "anthropic"

pub record ModelInfo : Type 0 where
  pub id : String
  pub owned_by : ProviderName

pub record ModelSettings : Type 0 where
  pub openai_models : List String
  pub anthropic_models : List String

-- {model: name for model in models}, written over a dictionary
unfoldable pub route_to : ProviderName → List String → Dict ProviderName → Dict ProviderName
route_to name [] routes = routes
route_to name (model ∷ models) routes = route_to name models (Dict.put model name routes)

-- ProviderRegistry.__init__: _model_providers
unfoldable pub model_providers : ModelSettings → Dict ProviderName
unfolding route_to
model_providers s = route_to anthropic s.anthropic_models (route_to openai s.openai_models [])

abbrev found_or_unsupported : String → Option ProviderName → Result Exception ProviderName
found_or_unsupported model none =
    raise (api (api_error unsupported_model (String.◌++◌ "Model not found: " model) []))
found_or_unsupported model (some name) = ok name

unfoldable pub provider_for_model : ModelSettings → String → Result Exception ProviderName
unfolding model_providers
provider_for_model s model = found_or_unsupported model (Dict.get model (model_providers s))

abbrev model_info : ProviderName → String → ModelInfo
model_info owner model = record { id = model; owned_by = owner }

unfoldable pub list_models : ModelSettings → List ModelInfo
list_models s =
    map (model_info openai) s.openai_models ++ map (model_info anthropic) s.anthropic_models

abbrev pub listed : String → List String → Bool
listed model [] = false
listed model (m ∷ ms) = if str_eq m model then true else listed model ms

get-route_to :
    (name : ProviderName) (models : List String) (routes : Dict ProviderName) (model : String)
    → Dict.get model (route_to name models routes)
      ≡ (if listed model models then some name else Dict.get model routes)
unfolding route_to
get-route_to name [] routes model = refl
get-route_to name (m ∷ ms) routes model = ground (
  arith,
  eq_iff m model,
  Dict.get-put m model name routes,
  get-route_to name ms (Dict.put m name routes) model,
)

-- A model that is configured for Anthropic is served by Anthropic, also when it is configured for
-- OpenAI; one that is configured for OpenAI only is served by OpenAI; and any other model is refused
-- with the unsupported-model error that names it.
pub provider_for_model_cases :
    (s : ModelSettings) (model : String)
    → provider_for_model s model ≡ (
        if listed model s.anthropic_models
        then ok anthropic
        else if listed model s.openai_models
        then ok openai
        else raise (api (api_error unsupported_model (String.◌++◌ "Model not found: " model) [])))
unfolding provider_for_model model_providers
provider_for_model_cases s model =
    rw
      (
        get-route_to anthropic s.anthropic_models (route_to openai s.openai_models []) model,
        get-route_to openai s.openai_models [] model,
      )
      (ground (arith, Dict.get-nil {V = ProviderName} model))

owners : String → List ModelInfo → List ProviderName
owners model [] = []
owners model (i ∷ is) = if str_eq i.id model then i.owned_by ∷ owners model is else owners model is
