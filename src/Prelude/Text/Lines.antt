-- ===== src/Prelude/Text/Lines.antt =====
-- Python's str.splitlines and str.removeprefix.
use Prim.Native.Char.{code}
use Prim.Native.String.{String, [], ◌∷◌, ◌++◌}
use mathlib.Core.Path.{◌≡◌, refl}
use mathlib.Core.Bool.{Bool, true, false, ◌&&◌, ◌||◌}
use mathlib.Core.Logic.{inl, inr}
use mathlib.Core.List.{List}
use ai_serving_backend.Prelude.Tests.{leb, ◌==◌, if◌then◌else◌, Bool-cases}
use ai_serving_backend.Prelude.Text.{on_head}
use native.Mathlib.Omega.{arith}
use text.Mathlib.TextLemmas.{nil-append, cons-append}
use Prim.Native.Nat.{ℕ}

-- a character at which splitlines ends a line
unfoldable pub is_line_break : ℕ → Bool
is_line_break c =
    (leb 10 c && leb c 13) || (leb 28 c && leb c 30) || c == 133 || c == 8232 || c == 8233

-- the lines of a text; a line feed after a carriage return ends no line of its own
unfoldable pub lines_after : Bool → String → List String
unfolding is_line_break
lines_after cr [] = List.[]
lines_after cr (c ∷ s) =
    let rest = lines_after (code c == 13) s in
    if cr && code c == 10
    then rest
    else if is_line_break (code c)
    then List.◌∷◌ [] rest
    else on_head c rest

unfoldable pub splitlines : String → List String
unfolding lines_after
splitlines s = lines_after false s

-- No character of the text ends a line.
unfoldable pub IsOneLine : String → Type 0
IsOneLine [] = Unit
IsOneLine (c ∷ s) = (is_line_break (code c) ≡ false) × IsOneLine s

-- s.startswith(prefix)
unfoldable pub startswith : String → String → Bool
startswith s [] = true
startswith [] (d ∷ p) = false
startswith (c ∷ s) (d ∷ p) = code c == code d && startswith s p

-- s.removeprefix(prefix), for a prefix that s starts with
unfoldable pub without_prefix : String → String → String
without_prefix s [] = s
without_prefix [] (d ∷ p) = []
without_prefix (c ∷ s) (d ∷ p) = without_prefix s p

-- s.removeprefix(prefix)
unfoldable pub removeprefix : String → String → String
unfolding startswith without_prefix
removeprefix s prefix = if startswith s prefix then without_prefix s prefix else s

not_cr : (c : ℕ) → is_line_break c ≡ false → (c == 13) ≡ false
unfolding is_line_break
not_cr c h = ground arith

-- A line that a line feed ends is the first line; the lines of the rest follow.
pub lines_after-line :
    (line rest : String)
    → IsOneLine line
    → lines_after false (line ++ ("\n" ∷ rest)) ≡ List.◌∷◌ line (lines_after false rest)
unfolding lines_after IsOneLine
lines_after-line [] rest h = rw nil-append refl
lines_after-line (c ∷ s) rest h =
    rw (cons-append, lines_after) (rw (not_cr (code c) h.0, h.0, lines_after-line s rest h.1) refl)

abbrev pub has_no_break : String → Bool
has_no_break [] = true
has_no_break (c ∷ s) = if is_line_break (code c) then false else has_no_break s

pub has_no_break-IsOneLine : (s : String) → has_no_break s ≡ true → IsOneLine s
unfolding IsOneLine
has_no_break-IsOneLine [] h = tt
has_no_break-IsOneLine (c ∷ s) h = elim (Bool-cases (is_line_break (code c))) [
  | inl it ↦ let h' = rw it at h in absurd (cc)
  | inr other ↦ (other, has_no_break-IsOneLine s (rw other at h))
]
