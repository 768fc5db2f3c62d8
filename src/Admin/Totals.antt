-- ===== src/Admin/Totals.antt =====
-- app/routers/admin.py: the groups of a usage report, and its rows.
use ai_serving_backend.Prelude.{
  ℕ, ◌+◌, String, ◌≡◌, refl, sym, ◌∙◌, Bool, true, List, [], ◌∷◌, map, filter, length, arith, All,
  str_eq, eq_iff, eq_refl, if◌then◌else◌, Bool-cases, inl, inr,
}
use ai_serving_backend.Auth.{contains}
use ai_serving_backend.Db.{AuditLog}
use ai_serving_backend.Policy.{sorted}
use ai_serving_backend.Policy.Sorting.{weight, weight-sorted}
use ai_serving_backend.Admin.{
  GroupBy, group_key, UsageGroup, sum, is_error, usage_group, distinct, usage_groups,
}

-- a figure of a report, over all its groups
unfoldable pub total : (UsageGroup → ℕ) → List UsageGroup → ℕ
total figure [] = 0
total figure (g ∷ gs) = figure g + total figure gs

abbrev of_key : GroupBy → String → AuditLog → Bool
of_key by k row = str_eq (group_key by row) k

-- a column, over the rows of each key
abbrev by_keys : GroupBy → (AuditLog → ℕ) → List AuditLog → List String → ℕ
by_keys by column rows [] = 0
by_keys by column rows (k ∷ ks) = sum column (filter (of_key by k) rows) + by_keys by column rows ks

by_keys-nil :
    (by : GroupBy) (column : AuditLog → ℕ) (ks : List String) → by_keys by column [] ks ≡ 0
unfolding sum
by_keys-nil by column [] = refl
by_keys-nil by column (k ∷ ks) = omega (arith, by_keys-nil by column ks)

by_keys-cons :
    (by : GroupBy) (column : AuditLog → ℕ) (row : AuditLog) (rows : List AuditLog)
    (ks : List String)
    → by_keys by column (row ∷ rows) ks
      ≡ weight (group_key by row) (column row) ks + by_keys by column rows ks
unfolding sum weight
by_keys-cons by column row rows [] = refl
by_keys-cons by column row rows (k ∷ ks) = elim (Bool-cases (str_eq (group_key by row) k)) [
  | inl it ↦
      rw (it, weight)
        (ground (
          arith,
          it,
          eq_iff (group_key by row) k,
          eq_iff k (group_key by row),
          by_keys-cons by column row rows ks,
        ))
  | inr other ↦
      rw (other, weight)
        (ground (
          arith,
          other,
          eq_iff (group_key by row) k,
          eq_iff k (group_key by row),
          by_keys-cons by column row rows ks,
        ))
]

contains-distinct : (k : String) (ks : List String) → contains k (distinct ks) ≡ contains k ks
unfolding distinct contains
contains-distinct k [] = refl
contains-distinct k (j ∷ ks) =
    ground (arith, eq_iff j k, contains-distinct k ks, contains-distinct j ks)

weight-distinct :
    (k : String) (x : ℕ) (ks : List String)
    → weight k x (distinct ks) ≡ (if contains k ks then x else 0)
unfolding weight distinct contains
weight-distinct k x [] = refl
weight-distinct k x (j ∷ ks) =
    ground
      (arith, eq_iff j k, contains-distinct j ks, contains-distinct k ks, weight-distinct k x ks)

sum-by_keys :
    (by : GroupBy) (column : AuditLog → ℕ) (ks : List String) (rows : List AuditLog)
    → All (λ row. contains (group_key by row) ks ≡ true) rows
    → by_keys by column rows (sorted (distinct ks)) ≡ sum column rows
unfolding sum
sum-by_keys by column ks [] h = by_keys-nil by column (sorted (distinct ks))
sum-by_keys by column ks (row ∷ rows) h =
    let once =
      weight-sorted (group_key by row) (column row) (distinct ks)
      ∙ weight-distinct (group_key by row) (column row) ks in
    by_keys-cons by column row rows (sorted (distinct ks))
    ∙ ground (arith, once, h.0, sum-by_keys by column ks rows h.1)

contains-map :
    (by : GroupBy) (all rows : List AuditLog)
    → All (λ row. contains (group_key by row) (map (group_key by) all) ≡ true) rows
    → (r : AuditLog)
    → All (λ row. contains (group_key by row) (map (group_key by) (r ∷ all)) ≡ true) rows
unfolding contains
contains-map by all [] h r = tt
contains-map by all (row ∷ rows) h r = (ground (arith, h.0), contains-map by all rows h.1 r)

every_key :
    (by : GroupBy) (rows : List AuditLog)
    → All (λ row. contains (group_key by row) (map (group_key by) rows) ≡ true) rows
unfolding contains
every_key by [] = tt
every_key by (row ∷ rows) =
    (ground (arith, eq_refl (group_key by row)), contains-map by rows rows (every_key by rows) row)

total-map :
    (by : GroupBy) (figure : UsageGroup → ℕ) (column : AuditLog → ℕ) (rows : List AuditLog)
    (ks : List String)
    → ((k : String) → figure (usage_group by rows k) ≡ sum column (filter (of_key by k) rows))
    → total figure (map (usage_group by rows) ks) ≡ by_keys by column rows ks
unfolding total
total-map by figure column rows [] h = refl
total-map by figure column rows (k ∷ ks) h =
    omega (arith, h k, total-map by figure column rows ks h)

total-usage_groups :
    (by : GroupBy) (figure : UsageGroup → ℕ) (column : AuditLog → ℕ) (rows : List AuditLog)
    → ((k : String) → figure (usage_group by rows k) ≡ sum column (filter (of_key by k) rows))
    → total figure (usage_groups by rows) ≡ sum column rows
unfolding usage_groups
total-usage_groups by figure column rows h =
    total-map by figure column rows (sorted (distinct (map (group_key by) rows))) h
    ∙ sum-by_keys by column (map (group_key by) rows) rows (every_key by rows)

length-sum : (rows : List AuditLog) → length rows ≡ sum (λ row. 1) rows
unfolding sum
length-sum [] = refl
length-sum (row ∷ rows) = omega (arith, length-sum rows)

-- However the rows of a usage report are grouped, the groups' totals of tokens and their numbers of
-- requests and of errors add up to those of the rows: no row is left out, and none is counted twice.
pub usage_groups-total :
    (by : GroupBy) (rows : List AuditLog)
    → (total (λ g. g.total_tokens) (usage_groups by rows) ≡ sum (λ row. row.total_tokens) rows)
      × (total (λ g. g.request_count) (usage_groups by rows) ≡ length rows)
      × (total (λ g. g.error_count) (usage_groups by rows) ≡ sum is_error rows)
unfolding usage_group
usage_groups-total by rows = (
  total-usage_groups by (λ g. g.total_tokens) (λ row. row.total_tokens) rows (λ k. refl),
  total-usage_groups by (λ g. g.request_count) (λ row. 1) rows (λ k. length-sum _)
      ∙ sym (length-sum rows),
  total-usage_groups by (λ g. g.error_count) is_error rows (λ k. refl),
)
