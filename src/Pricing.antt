-- ===== src/Pricing.antt =====
-- app/pricing.py: the cost of a completion, in units of 10^-8 dollars: a price of 2.50 dollars for a
-- million tokens is 250 of them for a token. `Decimal` is exact for every count below 10^20.
use ai_serving_backend.Prelude.{
  ℕ, ◌+◌, ◌*◌, String, ◌≡◌, Option, none, some, [], ◌∷◌, arith, str_eq, if◌then◌else◌, refl,
}
use ai_serving_backend.Prelude.Dict
use ai_serving_backend.Prelude.Dict.{Dict}

-- MODEL_PRICING_USD_PER_1M: the input's price and the output's
unfoldable pub model_pricing : Dict (ℕ × ℕ)
model_pricing =
    ("gpt-4o", (250, 1000))
    ∷ ("gpt-4o-mini", (15, 60))
    ∷ ("claude-sonnet-4-6", (300, 1500))
    ∷ ("claude-3-5-haiku-latest", (80, 400))
    ∷ []

abbrev price_of : Option String → Option (ℕ × ℕ)
price_of none = none
price_of (some model) = if str_eq model "" then none else Dict.get model model_pricing

abbrev cost_at : Option (ℕ × ℕ) → ℕ → ℕ → ℕ
cost_at none prompt_tokens completion_tokens = 0
cost_at (some (input_price, output_price)) prompt_tokens completion_tokens =
    prompt_tokens * input_price + completion_tokens * output_price

unfoldable pub calculate_cost : Option String → ℕ → ℕ → ℕ
unfolding Dict.get model_pricing
calculate_cost model prompt_tokens completion_tokens =
    cost_at (price_of model) prompt_tokens completion_tokens

cost_at-add :
    (p : Option (ℕ × ℕ)) (a b c d : ℕ) → cost_at p (a + c) (b + d) ≡ cost_at p a b + cost_at p c d
cost_at-add none a b c d = refl
cost_at-add (some (i, o)) a b c d = grind arith

-- Costs add up: what a model costs for the tokens of two completions together is what it costs for
-- the one and for the other.
pub calculate_cost-add :
    (model : Option String) (a b c d : ℕ)
    → calculate_cost model (a + c) (b + d) ≡ calculate_cost model a b + calculate_cost model c d
unfolding calculate_cost
calculate_cost-add model a b c d = cost_at-add (price_of model) a b c d
