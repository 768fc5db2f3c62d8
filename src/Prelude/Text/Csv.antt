-- ===== src/Prelude/Text/Csv.antt =====
-- Lists that are written with commas: what `split`, `strip` and `join` make of them.
use Prim.Native.String
use package.text.Mathlib.TextLemmas.{nil-append, cons-append}
use mathlib.Core.Path.{◌≡◌, refl, ap, ◌∙◌}
use mathlib.Core.Bool.{Bool, false, not}
use mathlib.Core.List.{List, [], ◌∷◌, map}
use mathlib.Core.Logic.{inl, inr}
use text.Mathlib.Text.{◌==◌ as str_eq}
use ai_serving_backend.Prelude.Tests.{Bool-cases}
use ai_serving_backend.Prelude.Lists.{All, filter}
use ai_serving_backend.Prelude.{String}
use ai_serving_backend.Prelude.Text.{strip, split_on, join, csv_items}
use ai_serving_backend.Prelude.Text.Strip.{Lacks, split_on-Lacks, strip-Lacks, strip-strip}
use ai_serving_backend.Prelude.Text.Padding.{
  IsBlank, append-Lacks, blank-Lacks, strip-padded, strip-blank,
}

-- A text with no comma in it and no white space at its ends.
abbrev pub IsItem : String → Type 0
IsItem s = Lacks b',' s × (strip s ≡ s)

split_on-last : (p : String) → Lacks b',' p → split_on b',' p ≡ p ∷ []
unfolding split_on Lacks
split_on-last String.[] h = refl
split_on-last (String.◌∷◌ c p) h = rw (split_on, h.0, split_on-last p h.1) refl

split_on-first :
    (p rest : String)
    → Lacks b',' p
    → split_on b',' (String.◌++◌ p (String.◌++◌ "," rest)) ≡ p ∷ split_on b',' rest
unfolding split_on Lacks
split_on-first String.[] rest h = rw (nil-append, cons-append, nil-append) refl
split_on-first (String.◌∷◌ c p) rest h =
    rw (cons-append, split_on, h.0, split_on-first p rest h.1) refl

abbrev is_text : String → Bool
is_text p = not (str_eq p "")

split_on-join_lem :
    (s : String) (parts : List String)
    → All (Lacks b',') (s ∷ parts)
    → split_on b',' (join "," (s ∷ parts)) ≡ s ∷ parts
unfolding join
split_on-join_lem s [] h = split_on-last s h.0
split_on-join_lem s (t ∷ parts) h =
    split_on-first s (join "," (t ∷ parts)) h.0 ∙ ap (◌∷◌ s) (split_on-join_lem t parts h.1)

items-Lacks : (items : List String) → All IsItem items → All (Lacks b',') items
items-Lacks [] h = tt
items-Lacks (s ∷ items) h = (h.0.0, items-Lacks items h.1)

pub split_on-join :
    (s : String) (items : List String)
    → All IsItem (s ∷ items)
    → split_on b',' (join "," (s ∷ items)) ≡ s ∷ items
split_on-join s items h = split_on-join_lem s items (items-Lacks (s ∷ items) h)

pub map-strip : (items : List String) → All IsItem items → map strip items ≡ items
map-strip [] h = refl
map-strip (s ∷ items) h = rw (h.0.1, map-strip items h.1) refl

pub filter-IsItem :
    (p : String → Bool) (items : List String) → All IsItem items → All IsItem (filter p items)
filter-IsItem p [] h = tt
filter-IsItem p (s ∷ items) h = elim (Bool-cases (p s)) [
  | inl kept ↦ rw kept (h.0, filter-IsItem p items h.1)
  | inr left ↦ rw left (filter-IsItem p items h.1)
]

strips-IsItem : (parts : List String) → All (Lacks b',') parts → All IsItem (map strip parts)
strips-IsItem [] h = tt
strips-IsItem (p ∷ parts) h = ((strip-Lacks b',' p h.0, strip-strip p), strips-IsItem parts h.1)

pub csv_items-IsItem : (s : String) → All IsItem (csv_items s)
unfolding csv_items
csv_items-IsItem s =
    filter-IsItem is_text (map strip (split_on b',' s))
      (strips-IsItem (split_on b',' s) (split_on-Lacks b',' s))

-- One part of such a list, as somebody writes it: an item in white space, or white space alone.
pub data Part : Type 0 where
  padded : String → String → String → Part
  blank : String → Part

abbrev pub part_text : Part → String
part_text (padded before item after) = String.◌++◌ before (String.◌++◌ item after)
part_text (blank spaces) = spaces

abbrev pub items_of : List Part → List String
items_of [] = []
items_of (padded before item after ∷ parts) = item ∷ items_of parts
items_of (blank spaces ∷ parts) = items_of parts

abbrev pub IsPart : Part → Type 0
IsPart (padded before item after) =
    IsBlank before × IsItem item × (str_eq item "" ≡ false) × IsBlank after
IsPart (blank spaces) = IsBlank spaces

part-Lacks : (part : Part) → IsPart part → Lacks b',' (part_text part)
part-Lacks (padded before item after) h =
    append-Lacks b',' before _ (blank-Lacks before h.0)
      (append-Lacks b',' item after h.1.0 (blank-Lacks after h.3))
part-Lacks (blank spaces) h = blank-Lacks spaces h

parts-Lacks : (parts : List Part) → All IsPart parts → All (Lacks b',') (map part_text parts)
parts-Lacks [] h = tt
parts-Lacks (part ∷ parts) h = (part-Lacks part h.0, parts-Lacks parts h.1)

filter-parts :
    (parts : List Part)
    → All IsPart parts
    → filter is_text (map strip (map part_text parts)) ≡ items_of parts
filter-parts [] h = refl
filter-parts (padded before item after ∷ parts) h =
    rw (strip-padded before item after h.0.0 h.0.3, h.0.1.1, h.0.2, filter-parts parts h.1) refl
filter-parts (blank spaces ∷ parts) h = rw (strip-blank spaces h.0, filter-parts parts h.1) refl

-- Whatever white space stands around the items, and whatever parts are blank, the items are read back.
pub csv_items-parts :
    (parts : List Part)
    → All IsPart parts
    → csv_items (join "," (map part_text parts)) ≡ items_of parts
unfolding csv_items join strip
csv_items-parts [] h = refl
csv_items-parts (part ∷ parts) h =
    ap (λ ps. filter is_text (map strip ps))
      (split_on-join_lem (part_text part) (map part_text parts) (parts-Lacks (part ∷ parts) h))
    ∙ filter-parts (part ∷ parts) h
