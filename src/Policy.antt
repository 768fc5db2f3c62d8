-- ===== src/Policy.antt =====
-- app/compliance/filter.py: the rules on forbidden content. Python's `re` is an argument: compiling a
-- pattern (`none` is re.error), and the number of matches that `finditer` yields.
pub mod Counting
pub mod Sorting
mod Tests
use Prim.Native.String
use text.Mathlib.Text.{is_le}
use ai_serving_backend.Prelude.{
  ℕ, ◌+◌, String, Bool, true, false, not, ◌||◌, Option, none, some, List, [], ◌∷◌, str_eq, ltb,
  ◌==◌, if◌then◌else◌, take,
}
use ai_serving_backend.Prelude.Text.{partition, strip, str_length}
use ai_serving_backend.Prelude.Dict
use ai_serving_backend.Prelude.Dict.{Dict, get_or}
use ai_serving_backend.Request.{NormalizedMessage}

pub record RegexModule : Type 1 where
  pub Pattern : Type 0
  pub compile_ignorecase : String → Option Pattern
  pub count_matches : Pattern → String → ℕ

abbrev pub max_rule_pattern_chars : ℕ
max_rule_pattern_chars = 512

abbrev pub max_rules : ℕ
max_rules = 200

pub record PolicyMatch : Type 0 where
  pub rule_id : String
  pub count : ℕ
  pub severity : String

-- sorted(keys)
insert_sorted : String → List String → List String
insert_sorted k [] = k ∷ []
insert_sorted k (j ∷ ks) =
    let later = insert_sorted k ks in if is_le (String.compare k j) then k ∷ j ∷ ks else j ∷ later

unfoldable pub sorted : List String → List String
unfolding insert_sorted
sorted [] = []
sorted (k ∷ ks) = insert_sorted k (sorted ks)

abbrev pub keys {ℓ} : {V : Type ℓ} → Dict V → List String
keys [] = []
keys ((k, v) ∷ d) = k ∷ keys d

matches_of : Dict ℕ → List String → List PolicyMatch
matches_of counts [] = []
matches_of counts (id ∷ ids) =
    record { rule_id = id; count = get_or id 0 counts; severity = "medium" } ∷ matches_of counts ids

module _ (re : RegexModule) where
  open re use {Pattern, compile_ignorecase, count_matches}

  pub record CompiledRule : Type 0 where
    pub rule_id : String
    pub pattern : Pattern

  -- one entry "id=pattern"; `none` is an entry that is skipped
  unfoldable pub compile_rule : String → Option CompiledRule
  unfolding partition strip
  compile_rule entry =
      let (before, separator, regex) = partition b'=' entry in
      let rule_id = strip before in
      if not separator || str_eq rule_id ""
      then none
      else if str_eq regex ""
      then none
      else if ltb max_rule_pattern_chars (str_length regex)
      then none
      else elim (compile_ignorecase regex) [
        | none ↦ none
        | some pattern ↦ some (record { rule_id = rule_id; pattern = pattern })
      ]

  compile_entries : List String → List CompiledRule
  compile_entries [] = []
  compile_entries (entry ∷ entries) = elim (compile_rule entry) [
    | none ↦ compile_entries entries
    | some rule ↦ rule ∷ compile_entries entries
  ]

  unfoldable pub compile_rules : List String → List CompiledRule
  unfolding compile_entries
  compile_rules patterns = compile_entries (take max_rules patterns)

  count_rule : String → Dict ℕ → CompiledRule → Dict ℕ
  count_rule content counts rule =
      let match_count = count_matches rule.pattern content in
      if match_count == 0
      then counts
      else Dict.put rule.rule_id (get_or rule.rule_id 0 counts + match_count) counts

  -- the inner loop
  count_rules : String → List CompiledRule → Dict ℕ → Dict ℕ
  unfolding count_rule
  count_rules content [] counts = counts
  count_rules content (rule ∷ rules) counts =
      count_rules content rules (count_rule content counts rule)

  -- the outer loop
  unfoldable pub count_messages : List NormalizedMessage → List CompiledRule → Dict ℕ → Dict ℕ
  unfolding count_rules
  count_messages [] rules counts = counts
  count_messages (m ∷ messages) rules counts =
      count_messages messages rules (count_rules m.content rules counts)

  unfoldable pub scan_messages : List NormalizedMessage → List CompiledRule → List PolicyMatch
  unfolding count_messages sorted matches_of
  scan_messages messages rules =
      let counts = count_messages messages rules [] in matches_of counts (sorted (keys counts))
