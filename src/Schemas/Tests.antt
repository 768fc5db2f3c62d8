-- ===== src/Schemas/Tests.antt =====
-- One body that is accepted.
use ai_serving_backend.Prelude.{◌≡◌, ◌↔◌, refl, false, some, [], ◌∷◌, ok}
use ai_serving_backend.Prelude.Int.{pos, exceeds}
use ai_serving_backend.Schemas.{
  finite, is_positive, Limits, Body, model_validate, temperature_in_range,
}
use ai_serving_backend.Schemas.Validation.{IsValidBody, model_validate_iff}

abbrev limits : Limits
limits = record {
  max_message_chars = 100;
  max_model_name_chars = 20;
  max_messages = 2;
  max_output_tokens = 64;
}

abbrev body : Body
body = record {
  fields = record {
    model = "gpt-4o";
    messages = record { role = "user"; content = "hi" } ∷ [];
    stream = false;
    temperature = some (finite (record { negative = false; mantissa = 15; places = 1 }));
    max_tokens = some (pos 64);
  };
  extra = [];
}

body_accepted : model_validate limits body ≡ ok body.fields
unfolding model_validate temperature_in_range is_positive exceeds
body_accepted = refl

model_validate_iff_example : (model_validate limits body ≡ ok body.fields) ↔ IsValidBody limits body
model_validate_iff_example = model_validate_iff limits body
