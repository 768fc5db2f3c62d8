-- ===== src/Prelude/Text/Padding.antt =====
-- What `strip` takes off: white space at the two ends of a text.
use Prim.Native.Char.{code}
use Prim.Native.String
use package.text.Mathlib.TextLemmas.{nil-append, cons-append}
use mathlib.Core.Path.{◌≡◌, refl, ap, ◌∙◌}
use mathlib.Core.Bool.{true, false}
use mathlib.Core.Logic.{◌⊎◌, inl, inr}
use native.Mathlib.Omega.{arith}
use ai_serving_backend.Prelude.Tests.{◌==◌, Bool-cases}
use ai_serving_backend.Prelude.{String, ℕ}
use ai_serving_backend.Prelude.Text.{is_space, lstrip, rstrip, only_if_text, strip}
use ai_serving_backend.Prelude.Text.Strip.{Lacks}

-- Every character of the text is white space.
unfoldable pub IsBlank : String → Type 0
IsBlank String.[] = Unit
IsBlank (String.◌∷◌ c s) = (is_space (code c) ≡ true) × IsBlank s

space-no_comma : (c : ℕ) → is_space c ≡ true → (c == b',') ≡ false
unfolding is_space
space-no_comma c h = ground (arith, h)

pub blank-Lacks : (s : String) → IsBlank s → Lacks b',' s
unfolding IsBlank Lacks
blank-Lacks String.[] h = tt
blank-Lacks (String.◌∷◌ c s) h = (space-no_comma (code c) h.0, blank-Lacks s h.1)

pub append-Lacks :
    (sep : ℕ) (s t : String) → Lacks sep s → Lacks sep t → Lacks sep (String.◌++◌ s t)
unfolding Lacks
append-Lacks sep String.[] t h k = rw nil-append k
append-Lacks sep (String.◌∷◌ c s) t h k = rw cons-append (h.0, append-Lacks sep s t h.1 k)

lstrip-before : (s t : String) → IsBlank s → lstrip (String.◌++◌ s t) ≡ lstrip t
unfolding lstrip IsBlank
lstrip-before String.[] t h = rw nil-append refl
lstrip-before (String.◌∷◌ c s) t h = rw (cons-append, lstrip, h.0) (lstrip-before s t h.1)

lstrip-blank : (s : String) → IsBlank s → lstrip s ≡ String.[]
unfolding lstrip IsBlank
lstrip-blank String.[] h = refl
lstrip-blank (String.◌∷◌ c s) h = rw (lstrip, h.0) (lstrip-blank s h.1)

rstrip-blank : (s : String) → IsBlank s → rstrip s ≡ String.[]
unfolding rstrip IsBlank
rstrip-blank String.[] h = refl
rstrip-blank (String.◌∷◌ c s) h = rw (rstrip, rstrip-blank s h.1, h.0) refl

rstrip-after : (s t : String) → IsBlank t → rstrip (String.◌++◌ s t) ≡ rstrip s
unfolding rstrip
rstrip-after String.[] t h = rw nil-append (rstrip-blank t h)
rstrip-after (String.◌∷◌ c s) t h = rw cons-append (ap (only_if_text c) (rstrip-after s t h))

-- The white space after a text stays when its beginning is stripped, unless nothing is left.
lstrip-after :
    (s t : String)
    → IsBlank t
    → (lstrip (String.◌++◌ s t) ≡ String.◌++◌ (lstrip s) t)
      ⊎ ((lstrip s ≡ String.[]) × (lstrip (String.◌++◌ s t) ≡ String.[]))
unfolding lstrip
lstrip-after String.[] t h = inr (refl, rw nil-append (lstrip-blank t h))
lstrip-after (String.◌∷◌ c s) t h = elim (Bool-cases (is_space (code c))) [
  | inl space ↦ rw (cons-append, lstrip, space) (lstrip-after s t h)
  | inr dark ↦ inl (rw (cons-append, lstrip, dark, cons-append) refl)
]

strip-after : (s t : String) → IsBlank t → strip (String.◌++◌ s t) ≡ strip s
unfolding strip
strip-after s t h = elim (lstrip-after s t h) [
  | inl left ↦ ap rstrip left ∙ rstrip-after (lstrip s) t h
  | inr (nothing, nothing_too) ↦ rw (nothing, nothing_too) refl
]

strip-before : (s t : String) → IsBlank s → strip (String.◌++◌ s t) ≡ strip t
unfolding strip
strip-before s t h = ap rstrip (lstrip-before s t h)

pub strip-padded :
    (before s after : String)
    → IsBlank before
    → IsBlank after
    → strip (String.◌++◌ before (String.◌++◌ s after)) ≡ strip s
strip-padded before s after h k =
    strip-before before (String.◌++◌ s after) h ∙ strip-after s after k

pub strip-blank : (s : String) → IsBlank s → strip s ≡ String.[]
unfolding strip rstrip
strip-blank s h = ap rstrip (lstrip-blank s h)
