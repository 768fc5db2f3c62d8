-- ===== src/Schemas/Validation.antt =====
-- Which chat requests the validators let through.
use ai_serving_backend.Prelude.{
  ℕ, suc, ◌*◌, ◌^◌, ◌≤◌, String, ◌≡◌, ◌⊎◌, inl, inr, true, false, Option, none, some, List, [], ◌∷◌,
  ◌++◌, arith, ◌↔◌, All, length, ok, Bool-cases,
}
use ai_serving_backend.Prelude.Text.{str_length}
use ai_serving_backend.Prelude.Int.{ℤ, pos, negsuc, exceeds}
use ai_serving_backend.Errors.{ValidationError}
use ai_serving_backend.Schemas.{
  Float, finite, nan, infinity, Limits, ChatMessage, ChatCompletionRequest, Body, supported_role,
  message_errors, messages_errors, list_errors, model_errors, temperature_in_range,
  temperature_errors, is_positive, max_tokens_errors, extra_errors, errors_of, accept_unless,
  model_validate,
}

abbrev pub IsValidMessage : Limits → ChatMessage → Type 0
IsValidMessage l m = (supported_role m.role ≡ true) × (str_length m.content ≤ l.max_message_chars)

-- -0 is 0; NaN passes any bounds
abbrev pub IsTemperature : Float → Type 0
IsTemperature nan = Unit {0}
IsTemperature (infinity _) = ⊥
IsTemperature (finite n) =
    ((n.negative ≡ false) × (n.mantissa ≤ 2 * 10 ^ n.places))
    ⊎ ((n.negative ≡ true) × (n.mantissa ≡ 0))

abbrev pub IsMaxTokens : Limits → ℤ → Type 0
IsMaxTokens l (pos n) = (1 ≤ n) × (n ≤ l.max_output_tokens)
IsMaxTokens l (negsuc n) = ⊥

abbrev pub Given : {A : Type 0} → (A → Type 0) → Option A → Type 0
Given P none = Unit {0}
Given P (some n) = P n

abbrev pub IsValidBody : Limits → Body → Type 0
IsValidBody l b =
    (1 ≤ str_length b.fields.model)
    × (str_length b.fields.model ≤ l.max_model_name_chars)
    × (1 ≤ length b.fields.messages)
    × (length b.fields.messages ≤ l.max_messages)
    × All (IsValidMessage l) b.fields.messages
    × Given IsTemperature b.fields.temperature
    × Given (IsMaxTokens l) b.fields.max_tokens
    × (b.extra ≡ [])

no_message_errors :
    (l : Limits) (i : ℕ) (ms : List ChatMessage)
    → (messages_errors l i ms ≡ []) ↔ All (IsValidMessage l) ms
unfolding messages_errors message_errors
no_message_errors l i [] = ground arith
no_message_errors l i (m ∷ ms) = elim (Bool-cases (supported_role m.role)) [
  | inl known ↦ ground (arith, known, no_message_errors l (suc i) ms)
  | inr unknown ↦ ground (arith, unknown, no_message_errors l (suc i) ms)
]

append-nil_iff : (xs ys : List ValidationError) → (xs ++ ys ≡ []) ↔ ((xs ≡ []) × (ys ≡ []))
append-nil_iff [] ys = ground arith
append-nil_iff (x ∷ xs) ys = ground arith

no_temperature_errors : (t : Option Float) → (temperature_errors t ≡ []) ↔ Given IsTemperature t
unfolding temperature_errors temperature_in_range
no_temperature_errors none = ground arith
no_temperature_errors (some nan) = ground arith
no_temperature_errors (some (infinity _)) = ground arith
no_temperature_errors (some (finite n)) = ground arith

no_max_tokens_errors :
    (l : Limits) (t : Option ℤ) → (max_tokens_errors l t ≡ []) ↔ Given (IsMaxTokens l) t
unfolding max_tokens_errors is_positive exceeds
no_max_tokens_errors l none = ground arith
no_max_tokens_errors l (some (pos n)) = ground arith
no_max_tokens_errors l (some (negsuc n)) = ground arith

no_model_errors :
    (l : Limits) (m : String)
    → (model_errors l m ≡ []) ↔ ((1 ≤ str_length m) × (str_length m ≤ l.max_model_name_chars))
unfolding model_errors
no_model_errors l m = ground arith

no_list_errors :
    (l : Limits) (ms : List ChatMessage) (es : List ValidationError)
    → (list_errors l ms es ≡ []) ↔ ((1 ≤ length ms) × (length ms ≤ l.max_messages) × (es ≡ []))
unfolding list_errors
no_list_errors l ms [] = ground arith
no_list_errors l ms (e ∷ es) = ground arith

no_extra_errors : (names : List String) → (extra_errors names ≡ []) ↔ (names ≡ [])
unfolding extra_errors
no_extra_errors [] = ground arith
no_extra_errors (n ∷ ns) = ground arith

no_errors : (l : Limits) (b : Body) → (errors_of l b ≡ []) ↔ IsValidBody l b
unfolding errors_of
no_errors l b = grind (
  arith, append-nil_iff, no_model_errors, no_list_errors, no_temperature_errors,
  no_max_tokens_errors, no_extra_errors, no_message_errors,
)

accept_unless-ok :
    (es : List ValidationError) (r : ChatCompletionRequest)
    → (accept_unless es r ≡ ok r) ↔ (es ≡ [])
accept_unless-ok [] r = ground arith
accept_unless-ok (e ∷ es) r = ground arith

-- A body is accepted exactly when its model's name and its messages are within the configured limits,
-- with at least one character and one message, each message has a supported role, the temperature is
-- between 0 and 2 or NaN, max_tokens is between 1 and its limit, and no field is unknown. A temperature
-- and max_tokens may be missing.
pub model_validate_iff :
    (l : Limits) (b : Body) → (model_validate l b ≡ ok b.fields) ↔ IsValidBody l b
unfolding model_validate
model_validate_iff l b = grind (arith, accept_unless-ok (errors_of l b) b.fields, no_errors l b)
