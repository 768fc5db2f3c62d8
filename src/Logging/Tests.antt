-- ===== src/Logging/Tests.antt =====
-- A secret in a nested dictionary.
use ai_serving_backend.Prelude.{String, ◌≡◌, refl, Bool, str_eq}
use ai_serving_backend.Logging.{Fields, no_fields, field, scalar, dict, sanitize_fields, AreClean}
use ai_serving_backend.Logging.Format.{OwnKeysAreFine, log_event, format, format-AreClean}

abbrev is_token : String → Bool
is_token k = str_eq k "token"

abbrev nested : Fields
nested =
    field "request_id" (scalar "r")
      (field "usage" (dict (field "token" (scalar "sk-1") no_fields)) no_fields)

nested_dropped :
    sanitize_fields is_token nested
    ≡ field "request_id" (scalar "r") (field "usage" (dict no_fields) no_fields)
unfolding sanitize_fields
nested_dropped = refl

own_keys_are_fine : OwnKeysAreFine is_token
own_keys_are_fine = record {
  timestamp = refl;
  level = refl;
  logger = refl;
  message = refl;
  exception_class = refl;
}

format-AreClean_example :
    AreClean is_token (format is_token "2026-01-01" (log_event "ai_serving.chat" "done" nested))
format-AreClean_example = format-AreClean is_token "2026-01-01" _ own_keys_are_fine
