-- ===== src/Smoke/Report.antt =====
-- scripts/smoke_provider.py: what is printed. A printed text is a line of the output; a text of several
-- lines is kept as one. `str` of a Decimal is an argument.
mod Layout
use Prim.Native.String
use ai_serving_backend.Prelude.{
  ℕ, zero, suc, ◌-◌, ◌≤◌, max, String, Bool, true, false, Option, none, some, List, [], ◌∷◌, ◌++◌,
  map, leb, if◌then◌else◌,
}
use ai_serving_backend.Prelude.Text.{str_nat, str_length, str_take, split_words, join}
use ai_serving_backend.Json.{Json, text, PyError, truthy, complaint}
use ai_serving_backend.Smoke.Plans.{ProviderPlan}
use ai_serving_backend.Smoke.Answers.{CheckResult}

-- c * n
unfoldable pub repeat : String → ℕ → String
repeat c zero = ""
repeat c (suc n) = String.◌++◌ c (repeat c n)

-- s.ljust(width)
unfoldable pub ljust : String → ℕ → String
unfolding repeat
ljust s width = String.◌++◌ s (repeat " " (width - str_length s))

abbrev longest : ℕ → List (List String) → (List String → String) → ℕ
longest w [] cell = w
longest w (row ∷ rows) cell = max (str_length (cell row)) (longest w rows cell)

-- a row's cells go through the columns one by one
abbrev pub first_cell : List String → String
first_cell [] = ""
first_cell (c ∷ cs) = c

abbrev other_cells : List String → List String
other_cells [] = []
other_cells (c ∷ cs) = cs

-- widths: for each column of the headers the longest cell
unfoldable pub column_widths : List String → List (List String) → List ℕ
column_widths [] rows = []
column_widths (h ∷ hs) rows =
    longest (str_length h) rows first_cell ∷ column_widths hs (map other_cells rows)

-- value.ljust(widths[index]) for each value
unfoldable pub justified : List String → List ℕ → List String
unfolding ljust
justified [] ws = []
justified (c ∷ cs) [] = c ∷ justified cs []
justified (c ∷ cs) (w ∷ ws) = ljust c w ∷ justified cs ws

unfoldable pub table_line : List String → List ℕ → String
unfolding justified join
table_line cells widths = join " | " (justified cells widths)

unfoldable pub rule_line : List ℕ → String
unfolding repeat join
rule_line widths = join "-+-" (map (repeat "-") widths)

unfoldable pub print_table : List String → List (List String) → List String
unfolding column_widths table_line rule_line
print_table headers rows =
    let widths = column_widths headers rows in
    table_line headers widths ∷ rule_line widths ∷ map (λ row. table_line row widths) rows

-- the two limits that the script uses are 1000 and 300; below 3 the slice would be another one
unfoldable pub truncate : String → ℕ → String
unfolding split_words join str_take
truncate value limit =
    let normalized = join " " (split_words value) in
    if leb (str_length normalized) limit
    then normalized
    else String.◌++◌ (str_take (limit - 3) normalized) "..."

abbrev plan_row : ProviderPlan → List String
plan_row plan =
    plan.provider
    ∷ (if plan.has_key then "yes" else "no")
    ∷ plan.model
    ∷ str_nat plan.max_tokens
    ∷ (if plan.has_key then "WOULD CALL (stream + non-stream)" else "SKIP (no key)")
    ∷ []

unfoldable pub print_plan : List ProviderPlan → List String
unfolding print_table
print_plan plans =
    print_table ("provider" ∷ "key" ∷ "model" ∷ "max_tokens" ∷ "plan" ∷ []) (map plan_row plans)

abbrev count_or_dash : Option ℕ → String
count_or_dash none = "-"
count_or_dash (some n) = str_nat n

-- what is printed, and the exception that ends it, if one does
abbrev pub Printed : Type 0
Printed = List String × Option PyError

abbrev then_print : List String → Printed → Printed
then_print lines (more, e) = (lines ++ more, e)

module _ (str_decimal : ℕ → String) where
  cost_or_dash : Option ℕ → String
  cost_or_dash none = "-"
  cost_or_dash (some c) = str_decimal c

  unfoldable pub result_row : CheckResult → List String
  unfolding cost_or_dash
  result_row r =
      r.provider
      ∷ r.mode
      ∷ count_or_dash r.http_status
      ∷ String.◌++◌ (count_or_dash r.prompt_tokens) (
          String.◌++◌ "/" (
            String.◌++◌ (count_or_dash r.completion_tokens)
              (String.◌++◌ "/" (count_or_dash r.total_tokens))))
      ∷ cost_or_dash r.cost_usd
      ∷ r.audit_status
      ∷ r.status
      ∷ []

  abbrev labelled : CheckResult → String → String → String
  labelled r what t =
      String.◌++◌ r.provider (String.◌++◌ " " (String.◌++◌ r.mode (String.◌++◌ what t)))

  error_lines : CheckResult → List String
  unfolding truncate
  error_lines r = elim r.error [
    | String.[] ↦ []
    | String.◌∷◌ c s ↦ labelled r " error: " (truncate (String.◌∷◌ c s) 1000) ∷ []
  ]

  -- `text.split()` of a content that is no text raises
  text_lines : CheckResult → Json → Printed
  unfolding truncate truthy complaint
  text_lines r (text t) =
      (if truthy (text t) then labelled r " response: " (truncate t 300) ∷ [] else [], none)
  text_lines r v =
      if truthy v
      then (
        [],
        some (record {
          class_name = "AttributeError";
          message = complaint v "has no attribute 'split'";
        }),
      )
      else ([], none)

  abbrev go_on : Printed → Printed → Printed
  go_on (lines, none) more = then_print lines more
  go_on (lines, some e) more = (lines, some e)

  unfoldable pub print_texts : List CheckResult → Printed
  unfolding text_lines error_lines
  print_texts [] = ([], none)
  print_texts (r ∷ rs) = go_on (text_lines r r.text) (then_print (error_lines r) (print_texts rs))

  unfoldable pub print_results : List CheckResult → Printed
  unfolding print_table result_row print_texts
  print_results results =
      then_print
        (print_table
          ("provider" ∷ "mode" ∷ "HTTP" ∷ "tokens(p/c/t)" ∷ "cost_usd" ∷ "audit" ∷ "result" ∷ [])
          (map result_row results))
        (print_texts results)
