-- ===== src/Policy/Sorting.antt =====
-- app/compliance/filter.py: the sorting of rule ids.
use ai_serving_backend.Prelude.{
  ℕ, ◌+◌, String, ◌≡◌, refl, ◌∙◌, List, [], ◌∷◌, arith, str_eq, if◌then◌else◌, Bool-cases, inl, inr,
}
use text.Mathlib.Text.{is_le}
use Prim.Native.String
use ai_serving_backend.Policy.{insert_sorted, sorted}

-- `x` for every occurrence of `k`
unfoldable pub weight : String → ℕ → List String → ℕ
weight k x [] = 0
weight k x (j ∷ js) = if str_eq j k then x + weight k x js else weight k x js

weight-insert :
    (k : String) (x : ℕ) (j : String) (ks : List String)
    → weight k x (insert_sorted j ks) ≡ weight k x (j ∷ ks)
unfolding weight insert_sorted
weight-insert k x j [] = refl
weight-insert k x j (i ∷ ks) = elim (Bool-cases (is_le (String.compare j i))) [
  | inl before ↦ rw (insert_sorted, before) refl
  | inr after ↦ rw (insert_sorted, after) (ground (arith, weight-insert k x j ks))
]

pub weight-sorted : (k : String) (x : ℕ) (ks : List String) → weight k x (sorted ks) ≡ weight k x ks
unfolding weight sorted
weight-sorted k x [] = refl
weight-sorted k x (j ∷ ks) = weight-insert k x j (sorted ks) ∙ ground (arith, weight-sorted k x ks)
