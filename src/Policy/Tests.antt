-- ===== src/Policy/Tests.antt =====
-- The scan of one request.
use ai_serving_backend.Prelude.{String, ◌≡◌, none, some, List, [], ◌∷◌, str_eq, ◌==◌, if◌then◌else◌}
use ai_serving_backend.Request.{NormalizedMessage}
use ai_serving_backend.Policy.{RegexModule, CompiledRule, scan_messages}
use ai_serving_backend.Policy.Counting.{count_of, total_hits, count_of-scan_messages}

-- a pattern is a text, which matches a text that is equal to it
abbrev whole_text : RegexModule
whole_text = record {
  Pattern = String;
  compile_ignorecase = λ p. some p;
  count_matches = λ p t. if str_eq p t then 1 else 0;
}

abbrev messages : List NormalizedMessage
messages =
    record { role = "user"; content = "secret" } ∷ record { role = "user"; content = "fine" } ∷ []

abbrev rules : List (CompiledRule whole_text)
rules =
    record { rule_id = "r1"; pattern = "secret" } ∷ record { rule_id = "r2"; pattern = "plan" } ∷ []

count_of-scan_messages_example : count_of "r1" (scan_messages whole_text messages rules) ≡ (
    if total_hits whole_text "r1" messages rules == 0
    then none
    else some (total_hits whole_text "r1" messages rules))
count_of-scan_messages_example = count_of-scan_messages whole_text "r1" messages rules
