-- ===== src/Pii/Tests.antt =====
-- Masking at concrete texts.
use ai_serving_backend.Prelude.{◌≡◌, refl, true, false, List, [], ◌∷◌, arith, ℕ, String, inl}
use ai_serving_backend.Prelude.Dict
use ai_serving_backend.Prelude.Text.{str_length, str_take, str_drop, str_nat}
use mathlib.Core.List.{Perm}
use ai_serving_backend.Pii.Placeholders.{Numbered, no_masks-Numbered}
use ai_serving_backend.Pii.Redacted.{Distinct, redacted}
use ai_serving_backend.Pii.{
  PiiType, Candidate, Scanner, email, phone, luhn_valid, luhn_total, luhn_digit, collect_candidates,
}
use ai_serving_backend.Pii.Mask.{
  no_masks, apply_mask, register_all, sort_by_start, sort_by_start_desc, placeholder_of, register,
  replace_all, slot_index, placeholder,
}
use ai_serving_backend.Pii.Luhn.{luhn_valid-one_digit}
use ai_serving_backend.Pii.Spans.{Apart, Chain, collect_candidates-Apart}
use ai_serving_backend.Pii.Render.{render, apply_mask-render}

abbrev text : String
text = "a@b.kr or 010-1"

abbrev mail : Candidate
mail = record { start = 0; end = 6; pii_type = email; raw_value = "a@b.kr" }

abbrev call : Candidate
call = record { start = 10; end = 15; pii_type = phone; raw_value = "010-1" }

masked_text :
    (apply_mask text (mail ∷ call ∷ []) no_masks).0 ≡ "[REDACTED:EMAIL:1] or [REDACTED:PHONE:1]"
unfolding apply_mask register Dict.get Dict.put str_take str_drop str_nat sort_by_start
    sort_by_start_desc replace_all slot_index placeholder placeholder_of register_all
masked_text = refl

apply_mask-render_example :
    let (masked, m') = apply_mask text (mail ∷ call ∷ []) no_masks in
    (index : PiiType → String → ℕ) × (spans : List Candidate) × Perm spans (mail ∷ call ∷ [])
    × Chain (str_length text) spans
    × (masked ≡ render (redacted index) text (str_length text) spans)
    × Distinct index (mail ∷ call ∷ [])
    × Numbered m'
apply_mask-render_example =
    apply_mask-render text (mail ∷ call ∷ []) no_masks
      ((ground arith, ground arith), ((ground arith, ground arith), tt))
      ((inl (ground arith), tt), (tt, tt)) no_masks-Numbered

card_valid : luhn_valid (7 ∷ 9 ∷ 9 ∷ 2 ∷ 7 ∷ 3 ∷ 9 ∷ 8 ∷ 7 ∷ 1 ∷ 3 ∷ []) ≡ true
unfolding luhn_valid luhn_total luhn_digit
card_valid = refl

luhn_valid-one_digit_example : luhn_valid (7 ∷ 9 ∷ 9 ∷ 2 ∷ 7 ∷ 3 ∷ 9 ∷ 8 ∷ 7 ∷ 2 ∷ 3 ∷ []) ≡ false
luhn_valid-one_digit_example =
    luhn_valid-one_digit (7 ∷ 9 ∷ 9 ∷ 2 ∷ 7 ∷ 3 ∷ 9 ∷ 8 ∷ 7 ∷ []) (3 ∷ []) 1 2 (ground arith)
      (ground arith) (ground arith) card_valid

-- both patterns find the same span; the first type keeps it
abbrev scanner : Scanner
scanner = record {
  find_email = λ t. (0, 6) ∷ [];
  find_rrn = λ t. [];
  find_card = λ t. [];
  find_phone = λ t. (2, 5) ∷ (10, 15) ∷ [];
}

collect_candidates-Apart_example : Apart (collect_candidates scanner text ("phone" ∷ "email" ∷ []))
collect_candidates-Apart_example = collect_candidates-Apart scanner text ("phone" ∷ "email" ∷ [])
