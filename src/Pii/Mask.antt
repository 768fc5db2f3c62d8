-- ===== src/Pii/Mask.antt =====
-- app/compliance/pii.py: masking, once the candidates are collected.
use Prim.Native.String
use ai_serving_backend.Prelude.{
  ℕ, ◌+◌, String, Bool, not, ◌&&◌, ◌||◌, Option, none, some, List, [], ◌∷◌, ◌++◌, str_eq, leb,
  if◌then◌else◌, any, is_empty,
}
use ai_serving_backend.Prelude.Text.{str_nat, str_take, str_drop}
use ai_serving_backend.Prelude.Dict
use ai_serving_backend.Prelude.Dict.{Dict, get_or}
use ai_serving_backend.Request.{NormalizedMessage}
use ai_serving_backend.Pii.{
  PiiType, name, upper_name, same_type, detector_priority, Candidate, Scanner, enabled_by,
  collect_candidates,
}

-- sorted(candidates, key=lambda item: item[0]), which is stable
unfoldable pub insert_by_start : Candidate → List Candidate → List Candidate
insert_by_start c [] = c ∷ []
insert_by_start c (d ∷ ds) =
    let later = insert_by_start c ds in if leb c.start d.start then c ∷ d ∷ ds else d ∷ later

unfoldable pub sort_by_start : List Candidate → List Candidate
unfolding insert_by_start
sort_by_start [] = []
sort_by_start (c ∷ cs) = insert_by_start c (sort_by_start cs)

-- the same with reverse=True, which is stable too
unfoldable pub insert_by_start_desc : Candidate → List Candidate → List Candidate
insert_by_start_desc c [] = c ∷ []
insert_by_start_desc c (d ∷ ds) =
    let later = insert_by_start_desc c ds in if leb d.start c.start then c ∷ d ∷ ds else d ∷ later

unfoldable pub sort_by_start_desc : List Candidate → List Candidate
unfolding insert_by_start_desc
sort_by_start_desc [] = []
sort_by_start_desc (c ∷ cs) = insert_by_start_desc c (sort_by_start_desc cs)

-- an entry of `placeholders`: (pii_type, raw_value) and the placeholder's index
pub record Slot : Type 0 where
  pub pii_type : PiiType
  pub raw_value : String
  pub index : ℕ

-- the three dictionaries that `_apply_mask` writes to
pub record Masks : Type 0 where
  pub counts : Dict ℕ
  pub next_indexes : Dict ℕ
  pub placeholders : List Slot

abbrev pub no_masks : Masks
no_masks = record { counts = []; next_indexes = []; placeholders = [] }

-- placeholders.get((pii_type, raw_value))
unfoldable pub slot_index : PiiType → String → List Slot → Option ℕ
slot_index t raw [] = none
slot_index t raw (s ∷ slots) =
    if same_type s.pii_type t && str_eq s.raw_value raw
    then some s.index
    else slot_index t raw slots

-- f"[REDACTED:{pii_type.upper()}:{index}]"
unfoldable pub placeholder : PiiType → ℕ → String
placeholder t index =
    String.◌++◌ "[REDACTED:"
      (String.◌++◌ (upper_name t) (String.◌++◌ ":" (String.◌++◌ (str_nat index) "]")))

-- one round of the first loop of `_apply_mask`
unfoldable pub register : Masks → Candidate → Masks
register m c =
    let t = name c.pii_type in
    let counts = Dict.put t (get_or t 0 m.counts + 1) m.counts in
    let index = get_or t 0 m.next_indexes + 1 in
    elim (slot_index c.pii_type c.raw_value m.placeholders) [
      | some _ ↦ record m { counts = counts }
      | none ↦ record {
        counts = counts;
        next_indexes = Dict.put t index m.next_indexes;
        placeholders =
            m.placeholders
            ++ record { pii_type = c.pii_type; raw_value = c.raw_value; index = index } ∷ [];
      }
    ]

unfoldable pub register_all : Masks → List Candidate → Masks
unfolding register
register_all m [] = m
register_all m (c ∷ cs) = register_all (register m c) cs

-- placeholders[(pii_type, raw_value)]; the first loop has put it there
unfoldable pub placeholder_of : List Slot → Candidate → String
placeholder_of slots c = elim (slot_index c.pii_type c.raw_value slots) [
  | none ↦ ""
  | some index ↦ placeholder c.pii_type index
]

-- the second loop: masked[:start] + placeholder + masked[end:]
unfoldable pub replace_all : (Candidate → String) → String → List Candidate → String
replace_all by masked [] = masked
replace_all by masked (c ∷ cs) =
    replace_all by
      (String.◌++◌ (str_take c.start masked) (String.◌++◌ (by c) (str_drop c.end masked))) cs

unfoldable pub apply_mask : String → List Candidate → Masks → String × Masks
unfolding register_all sort_by_start sort_by_start_desc placeholder_of replace_all
apply_mask text candidates m =
    let m' = register_all m (sort_by_start candidates) in
    (replace_all (placeholder_of m'.placeholders) text (sort_by_start_desc candidates), m')

-- any of the types in `enabled_types` is known
abbrev any_enabled : List String → Bool
any_enabled types = any (enabled_by types) detector_priority

unfoldable pub mask_text : Scanner → String → List String → String × Dict ℕ
unfolding apply_mask
mask_text s text enabled =
    let candidates = collect_candidates s text enabled in
    let (masked, m) = apply_mask text candidates no_masks in
    if not (any_enabled enabled) || is_empty candidates then (text, []) else (masked, m.counts)

mask_content : Scanner → List String → String → Masks → String × Masks
mask_content s enabled content m =
    let candidates = collect_candidates s content enabled in
    if is_empty candidates then (content, m) else apply_mask content candidates m

-- the loop of `mask_messages`
mask_each : Scanner → List String → List NormalizedMessage → Masks → List NormalizedMessage × Masks
unfolding mask_content
mask_each s enabled [] m = ([], m)
mask_each s enabled (message ∷ messages) m =
    let (content, m') = mask_content s enabled message.content m in
    let (rest, m'') = mask_each s enabled messages m' in
    (record { role = message.role; content = content } ∷ rest, m'')

unfoldable pub mask_messages :
    Scanner → List NormalizedMessage → List String → List NormalizedMessage × Dict ℕ
unfolding mask_each
mask_messages s messages enabled =
    let (masked, m) = mask_each s enabled messages no_masks in
    if any_enabled enabled then (masked, m.counts) else (messages, [])
