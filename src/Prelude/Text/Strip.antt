-- ===== src/Prelude/Text/Strip.antt =====
-- What `strip` and `split` leave.
use Prim.Native.Char.{Char, code}
use ai_serving_backend.Prelude.Tests.{◌==◌, Bool-cases}
use ai_serving_backend.Prelude.Lists.{All}
use mathlib.Core.Path.{◌≡◌, refl, ap, ◌∙◌}
use mathlib.Core.Bool.{false}
use mathlib.Core.List.{List, [], ◌∷◌}
use mathlib.Core.Logic.{inl, inr}
use ai_serving_backend.Prelude.{String, ℕ}
use ai_serving_backend.Prelude.Text.{
  is_space, lstrip, rstrip, only_if_text, strip, on_head, split_on,
}

-- No character of the text is `sep`.
unfoldable pub Lacks : ℕ → String → Type 0
Lacks sep String.[] = Unit
Lacks sep (String.◌∷◌ c s) = ((code c == sep) ≡ false) × Lacks sep s

on_head-Lacks :
    (sep : ℕ) (c : Char) (ps : List String)
    → (code c == sep) ≡ false
    → All (Lacks sep) ps
    → All (Lacks sep) (on_head c ps)
unfolding Lacks
on_head-Lacks sep c [] h k = ((h, tt), tt)
on_head-Lacks sep c (p ∷ ps) h k = ((h, k.0), k.1)

pub split_on-Lacks : (sep : ℕ) (s : String) → All (Lacks sep) (split_on sep s)
unfolding Lacks split_on
split_on-Lacks sep String.[] = (tt, tt)
split_on-Lacks sep (String.◌∷◌ c s) = elim (Bool-cases (code c == sep)) [
  | inl it ↦ rw (split_on, it) (tt, split_on-Lacks sep s)
  | inr other ↦
      rw (split_on, other) (on_head-Lacks sep c (split_on sep s) other (split_on-Lacks sep s))
]

lstrip-Lacks : (sep : ℕ) (s : String) → Lacks sep s → Lacks sep (lstrip s)
unfolding Lacks lstrip
lstrip-Lacks sep String.[] h = tt
lstrip-Lacks sep (String.◌∷◌ c s) h = elim (Bool-cases (is_space (code c))) [
  | inl blank ↦ rw (lstrip, blank) (lstrip-Lacks sep s h.1)
  | inr dark ↦ rw (lstrip, dark) h
]

only_if_text-Lacks :
    (sep : ℕ) (c : Char) (s : String)
    → (code c == sep) ≡ false
    → Lacks sep s
    → Lacks sep (only_if_text c s)
unfolding Lacks
only_if_text-Lacks sep c String.[] h k = elim (Bool-cases (is_space (code c))) [
  | inl blank ↦ rw blank tt
  | inr dark ↦ rw dark (h, tt)
]
only_if_text-Lacks sep c (String.◌∷◌ d s) h k = (h, k)

rstrip-Lacks : (sep : ℕ) (s : String) → Lacks sep s → Lacks sep (rstrip s)
unfolding Lacks rstrip
rstrip-Lacks sep String.[] h = tt
rstrip-Lacks sep (String.◌∷◌ c s) h =
    only_if_text-Lacks sep c (rstrip s) h.0 (rstrip-Lacks sep s h.1)

pub strip-Lacks : (sep : ℕ) (s : String) → Lacks sep s → Lacks sep (strip s)
unfolding strip
strip-Lacks sep s h = rstrip-Lacks sep (lstrip s) (lstrip-Lacks sep s h)

rstrip-only_if_text :
    (c : Char) (s : String) → rstrip s ≡ s → rstrip (only_if_text c s) ≡ only_if_text c s
unfolding rstrip
rstrip-only_if_text c String.[] h = elim (Bool-cases (is_space (code c))) [
  | inl blank ↦ rw blank refl
  | inr dark ↦ rw (dark, dark) refl
]
rstrip-only_if_text c (String.◌∷◌ d s) h = ap (only_if_text c) h

rstrip-rstrip : (s : String) → rstrip (rstrip s) ≡ rstrip s
unfolding rstrip
rstrip-rstrip String.[] = refl
rstrip-rstrip (String.◌∷◌ c s) = rstrip-only_if_text c (rstrip s) (rstrip-rstrip s)

-- The text is empty or starts with a character that is no white space.
abbrev StartsDark : String → Type 0
StartsDark String.[] = Unit {0}
StartsDark (String.◌∷◌ c s) = is_space (code c) ≡ false

lstrip-StartsDark : (s : String) → StartsDark (lstrip s)
unfolding lstrip
lstrip-StartsDark String.[] = tt
lstrip-StartsDark (String.◌∷◌ c s) = elim (Bool-cases (is_space (code c))) [
  | inl blank ↦ rw (lstrip, blank) (lstrip-StartsDark s)
  | inr dark ↦ rw (lstrip, dark) dark
]

only_if_text-StartsDark :
    (c : Char) (s : String) → is_space (code c) ≡ false → StartsDark (only_if_text c s)
only_if_text-StartsDark c String.[] h = rw h h
only_if_text-StartsDark c (String.◌∷◌ d s) h = h

rstrip-StartsDark : (s : String) → StartsDark s → StartsDark (rstrip s)
unfolding rstrip
rstrip-StartsDark String.[] h = tt
rstrip-StartsDark (String.◌∷◌ c s) h = only_if_text-StartsDark c (rstrip s) h

lstrip-dark : (s : String) → StartsDark s → lstrip s ≡ s
unfolding lstrip
lstrip-dark String.[] h = refl
lstrip-dark (String.◌∷◌ c s) h = rw (lstrip, h) refl

pub strip-strip : (s : String) → strip (strip s) ≡ strip s
unfolding strip
strip-strip s =
    ap rstrip (lstrip-dark (rstrip (lstrip s)) (rstrip-StartsDark (lstrip s) (lstrip-StartsDark s)))
    ∙ rstrip-rstrip (lstrip s)
