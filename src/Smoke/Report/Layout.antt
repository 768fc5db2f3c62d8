-- ===== src/Smoke/Report/Layout.antt =====
-- scripts/smoke_provider.py: `print_table` and `truncate`, measured.
use Prim.Native.String
use text.Mathlib.TextLemmas.{nil-append, cons-append}
use ai_serving_backend.Prelude.{
  ℕ, zero, suc, ◌+◌, ◌-◌, ◌≤◌, String, ◌≡◌, refl, ap, ◌⊎◌, inl, inr, List, [], ◌∷◌, map, All,
  length, arith, leb, leb→le, Bool-cases,
}
use ai_serving_backend.Prelude.Text.{str_length, str_take, split_words, join}
use ai_serving_backend.Smoke.Report.{
  repeat, ljust, longest, first_cell, other_cells, column_widths, justified, table_line, rule_line,
  print_table, truncate,
}

str_length-append : (s t : String) → str_length (String.◌++◌ s t) ≡ str_length s + str_length t
str_length-append String.[] t = rw (nil-append t) (omega arith)
str_length-append (String.◌∷◌ c s) t = rw (cons-append c s t) (omega (arith, str_length-append s t))

str_length-repeat : (c : String) (n : ℕ) → str_length c ≡ 1 → str_length (repeat c n) ≡ n
unfolding repeat
str_length-repeat c zero h = refl
str_length-repeat c (suc n) h =
    omega (arith, str_length-append c (repeat c n), str_length-repeat c n h)

str_length-ljust : (s : String) (w : ℕ) → str_length s ≤ w → str_length (ljust s w) ≡ w
unfolding ljust
str_length-ljust s w h = omega (
  arith,
  str_length-append s (repeat " " (w - str_length s)),
  str_length-repeat " " (w - str_length s) refl,
)

str_length-three :
    (s t u : String)
    → str_length (String.◌++◌ s (String.◌++◌ t u)) ≡ str_length s + (str_length t + str_length u)
str_length-three s t u = omega (arith, str_length-append s (String.◌++◌ t u), str_length-append t u)

-- Each cell is no longer than its column is wide.
abbrev Fits : List String → List ℕ → Type 0
Fits [] [] = Unit
Fits [] (w ∷ ws) = ⊥
Fits (c ∷ cs) [] = ⊥
Fits (c ∷ cs) (w ∷ ws) = (str_length c ≤ w) × Fits cs ws

str_length-table_line :
    (cells : List String) (ws : List ℕ)
    → Fits cells ws
    → str_length (table_line cells ws) ≡ str_length (rule_line ws)
unfolding table_line rule_line join
str_length-table_line [] [] h = refl
str_length-table_line (c ∷ []) (w ∷ []) h =
    omega (arith, str_length-ljust c w h.0, str_length-repeat "-" w refl)
str_length-table_line (c ∷ d ∷ cs) (w ∷ v ∷ ws) h = omega (
  arith,
  str_length-three (ljust c w) " | " (join " | " (justified (d ∷ cs) (v ∷ ws))),
  str_length-three (repeat "-" w) "-+-" (join "-+-" (map (repeat "-") (v ∷ ws))),
  str_length-ljust c w h.0,
  str_length-repeat "-" w refl,
  str_length-table_line (d ∷ cs) (v ∷ ws) h.1,
)
str_length-table_line [] (w ∷ ws) h = elim h [ ]
str_length-table_line (c ∷ cs) [] h = elim h [ ]
str_length-table_line (c ∷ []) (w ∷ v ∷ ws) h = elim h.1 [ ]
str_length-table_line (c ∷ d ∷ cs) (w ∷ []) h = elim h.1 [ ]

module _ {A : Type 0} where
  abbrev In : A → List A → Type 0
  In x [] = ⊥
  In x (y ∷ ys) = (x ≡ y) ⊎ In x ys

  In-map : (f : A → A) (x : A) (xs : List A) → In x xs → In (f x) (map f xs)
  In-map f x [] m = elim m [ ]
  In-map f x (y ∷ ys) (inl e) = inl (ap f e)
  In-map f x (y ∷ ys) (inr m) = inr (In-map f x ys m)

le-longest :
    (w : ℕ) (rows : List (List String)) (cell : List String → String) → w ≤ longest w rows cell
le-longest w [] cell = omega arith
le-longest w (r ∷ rs) cell = omega (arith, le-longest w rs cell)

cell-le-longest :
    (w : ℕ) (rows : List (List String)) (cell : List String → String) (row : List String)
    → In row rows
    → str_length (cell row) ≤ longest w rows cell
cell-le-longest w [] cell row m = elim m [ ]
cell-le-longest w (r ∷ rs) cell row (inl e) = rw e (omega arith)
cell-le-longest w (r ∷ rs) cell row (inr m) = omega (arith, cell-le-longest w rs cell row m)

headers-Fits : (hs : List String) (rows : List (List String)) → Fits hs (column_widths hs rows)
unfolding column_widths
headers-Fits [] rows = tt
headers-Fits (h ∷ hs) rows =
    (le-longest (str_length h) rows first_cell, headers-Fits hs (map other_cells rows))

row-Fits :
    (hs row : List String) (rows : List (List String))
    → In row rows
    → length row ≡ length hs
    → Fits row (column_widths hs rows)
unfolding column_widths
row-Fits [] [] rows m e = tt
row-Fits [] (c ∷ cs) rows m e = absurd (omega (arith, e))
row-Fits (h ∷ hs) [] rows m e = absurd (omega (arith, e))
row-Fits (h ∷ hs) (c ∷ cs) rows m e = (
  cell-le-longest (str_length h) rows first_cell (c ∷ cs) m,
  row-Fits hs cs (map other_cells rows) (In-map other_cells (c ∷ cs) rows m) (omega (arith, e)),
)

All-lines :
    (headers : List String) (rows some_rows : List (List String))
    → ((row : List String) → In row some_rows → In row rows)
    → All (λ row. length row ≡ length headers) some_rows
    → All
        (λ line. str_length line ≡ str_length (rule_line (column_widths headers rows)))
        (map (λ row. table_line row (column_widths headers rows)) some_rows)
All-lines headers rows [] sub h = tt
All-lines headers rows (row ∷ more) sub h = (
  str_length-table_line row _ (row-Fits headers row rows (sub row (inl refl)) h.0),
  All-lines headers rows more (λ r m. sub r (inr m)) h.1,
)

-- Every line of a printed table, the rule under its headers included, has the same length, if every
-- row has a cell for each header.
pub print_table-aligned :
    (headers : List String) (rows : List (List String))
    → All (λ row. length row ≡ length headers) rows
    → All
        (λ line. str_length line ≡ str_length (rule_line (column_widths headers rows)))
        (print_table headers rows)
unfolding print_table
print_table-aligned headers rows h = (
  str_length-table_line headers _ (headers-Fits headers rows),
  (refl, All-lines headers rows rows (λ row m. m) h),
)

str_length-str_take : (n : ℕ) (s : String) → str_length (str_take n s) ≤ n
unfolding str_take
str_length-str_take zero s = omega arith
str_length-str_take (suc n) String.[] = omega arith
str_length-str_take (suc n) (String.◌∷◌ c s) = omega (arith, str_length-str_take n s)

-- A truncated text is no longer than the limit.
pub str_length-truncate-le :
    (value : String) (limit : ℕ) → 3 ≤ limit → str_length (truncate value limit) ≤ limit
unfolding truncate
str_length-truncate-le value limit h =
    let normalized = join " " (split_words value) in
    elim (Bool-cases (leb (str_length normalized) limit)) [
      | inl short ↦ rw short (leb→le _ limit short)
      | inr long ↦ rw long (
          omega (
            arith,
            str_length-append (str_take (limit - 3) normalized) "...",
            str_length-str_take (limit - 3) normalized,
          ))
    ]
