-- ===== src/Pii/Render.antt =====
-- The text that `_apply_mask` returns, described from the left to the right.
use Prim.Native.String
use mathlib.Core.List.{Perm}
use mathlib.Core.List.Perm
use text.Mathlib.TextLemmas.{cons-append, append_assoc, append-nil}
use ai_serving_backend.Prelude.{
  ℕ, zero, suc, ◌≤◌, String, ◌≡◌, refl, sym, ap, ◌∙◌, List, [], ◌∷◌, arith, All, leb, Bool-cases,
  inl, inr,
}
use ai_serving_backend.Prelude.Text.{str_take, str_drop, str_length}
use ai_serving_backend.Pii.{PiiType, Candidate, slice}
use ai_serving_backend.Pii.Placeholders.{
  Numbered, HasNumber, register_all-Numbered, register_all-HasNumber,
}
use ai_serving_backend.Pii.Redacted.{
  index_in, redacted, Distinct, placeholder_of-redacted, index_in-Distinct,
}
use ai_serving_backend.Pii.Mask.{
  Masks, apply_mask, insert_by_start, insert_by_start_desc, sort_by_start, sort_by_start_desc,
  register_all, placeholder_of, replace_all,
}
use ai_serving_backend.Pii.Spans.{Apart, InText, Chain, sort-Chain, sort-All}

infixr 60 ◌+++◌
abbrev pub ◌+++◌ : String → String → String
s +++ t = String.◌++◌ s t

-- The first `p` characters of the text, with every span of `cs` (which come from the right to the
-- left) replaced and every other character kept.
unfoldable pub render : (Candidate → String) → String → ℕ → List Candidate → String
unfolding slice
render by text p [] = str_take p text
render by text p (c ∷ cs) = render by text c.start cs +++ by c +++ slice text c.end p

take-take :
    (m n : ℕ) (s t : String)
    → m ≤ n
    → n ≤ str_length s
    → str_take m (str_take n s +++ t) ≡ str_take m s
unfolding str_take
take-take zero n s t h k = refl
take-take (suc m) zero s t h k = ground arith
take-take (suc m) (suc n) String.[] t h k = ground arith
take-take (suc m) (suc n) (String.◌∷◌ c s) t h k =
    rw (cons-append, take-take m n s t (ground arith) (ground arith)) refl

drop-take :
    (m n : ℕ) (s t : String)
    → m ≤ n
    → n ≤ str_length s
    → str_drop m (str_take n s +++ t) ≡ str_drop m (str_take n s) +++ t
unfolding str_take str_drop
drop-take zero n s t h k = refl
drop-take (suc m) zero s t h k = ground arith
drop-take (suc m) (suc n) String.[] t h k = ground arith
drop-take (suc m) (suc n) (String.◌∷◌ c s) t h k =
    rw (cons-append, drop-take m n s t (ground arith) (ground arith)) refl

replace_all-render :
    (by : Candidate → String) (text : String) (p : ℕ) (cs : List Candidate) (rest : String)
    → p ≤ str_length text
    → Chain p cs
    → replace_all by (str_take p text +++ rest) cs ≡ render by text p cs +++ rest
unfolding replace_all render slice
replace_all-render by text p [] rest h k = refl
replace_all-render by text p (c ∷ cs) rest h (f, g, k) =
    rw (take-take c.start p text rest (ground arith) h, drop-take c.end p text rest g h)
      (replace_all-render by text c.start cs (by c +++ (str_drop c.end (str_take p text) +++ rest))
          (ground arith) k
        ∙ simp append_assoc)

str_take-all : (s : String) → str_take (str_length s) s ≡ s
unfolding str_take
str_take-all String.[] = refl
str_take-all (String.◌∷◌ c s) = ap (String.◌∷◌ c) (str_take-all s)

insert-perm : (c : Candidate) (ds : List Candidate) → Perm (insert_by_start_desc c ds) (c ∷ ds)
unfolding insert_by_start_desc
insert-perm c [] = Perm.rfl
insert-perm c (d ∷ ds) = elim (Bool-cases (leb d.start c.start)) [
  | inl first ↦ rw (insert_by_start_desc, first) Perm.rfl
  | inr later ↦
      rw (insert_by_start_desc, later)
        (Perm.trans (Perm.cons d (insert-perm c ds)) (Perm.swap c d ds))
]

sort-perm : (cs : List Candidate) → Perm (sort_by_start_desc cs) cs
unfolding sort_by_start_desc
sort-perm [] = Perm.rfl
sort-perm (c ∷ cs) = Perm.trans (insert-perm c (sort_by_start_desc cs)) (Perm.cons c (sort-perm cs))

module _ (P : Candidate → Type 0) where
  insert-All_inv :
      (c : Candidate) (ds : List Candidate) → All P (insert_by_start c ds) → P c × All P ds
  unfolding insert_by_start
  insert-All_inv c [] h = h
  insert-All_inv c (d ∷ ds) h = elim (Bool-cases (leb c.start d.start)) [
    | inl first ↦ rw (insert_by_start, first) at h
    | inr later ↦
        let (hd, hs) : P d × All P (insert_by_start c ds) = rw (insert_by_start, later) at h in
        let (hc, more) = insert-All_inv c ds hs in (hc, (hd, more))
  ]

  sort-All_inv : (cs : List Candidate) → All P (sort_by_start cs) → All P cs
  unfolding sort_by_start
  sort-All_inv [] h = tt
  sort-All_inv (c ∷ cs) h =
      let (hc, hs) = insert-All_inv c (sort_by_start cs) h in (hc, sort-All_inv cs hs)

render-alike :
    (by by' : Candidate → String) (text : String) (p : ℕ) (cs : List Candidate)
    → All (λ c. by c ≡ by' c) cs
    → render by text p cs ≡ render by' text p cs
unfolding render
render-alike by by' text p [] h = refl
render-alike by by' text p (c ∷ cs) h =
    rw (render, h.0, render-alike by by' text c.start cs h.1) refl

All-redacted :
    (m : Masks) (cs : List Candidate)
    → All (HasNumber m) cs
    → All (λ c. placeholder_of m.placeholders c ≡ redacted (index_in m) c) cs
All-redacted m [] h = tt
All-redacted m (c ∷ cs) h = (placeholder_of-redacted m c h.0, All-redacted m cs h.1)

apply_mask-replaced :
    (text : String) (candidates : List Candidate) (m : Masks)
    → All (InText (str_length text)) candidates
    → Apart candidates
    → (apply_mask text candidates m).0
      ≡ render
          (placeholder_of (register_all m (sort_by_start candidates)).placeholders)
          text
          (str_length text)
          (sort_by_start_desc candidates)
unfolding apply_mask
apply_mask-replaced text candidates m h a =
    ap
      (λ s.
        replace_all (placeholder_of (register_all m (sort_by_start candidates)).placeholders) s
          (sort_by_start_desc candidates))
      (sym (append-nil text ∙ refl) ∙ ap (λ s. s +++ "") (sym (str_take-all text)))
    ∙ replace_all-render (placeholder_of (register_all m (sort_by_start candidates)).placeholders)
        text (str_length text) (sort_by_start_desc candidates) "" (ground arith)
        (sort-Chain (str_length text) candidates h a)
    ∙ append-nil _

-- When candidates that are spans of the text and have no character in common are masked, each value has
-- a number. Read from the right to the left, the candidates are a chain of spans, and the masked text
-- is the text with each span replaced by "[REDACTED:<TYPE>:<number>]" with the type and the number of its
-- value, and every character outside the spans kept, in order. If two values of a type never had one
-- number before, two of these candidates of one type have one number only if they have one value, and
-- the dictionaries stay so.
pub apply_mask-render :
    (text : String) (candidates : List Candidate) (m : Masks)
    → All (InText (str_length text)) candidates
    → Apart candidates
    → Numbered m
    → let (masked, m') = apply_mask text candidates m in
      (index : PiiType → String → ℕ) × (spans : List Candidate) × Perm spans candidates
      × Chain (str_length text) spans
      × (masked ≡ render (redacted index) text (str_length text) spans)
      × Distinct index candidates
      × Numbered m'
unfolding apply_mask
apply_mask-render text candidates m h a v =
    let m' = register_all m (sort_by_start candidates) in
    let spans = sort_by_start_desc candidates in
    let numbered = register_all-Numbered m (sort_by_start candidates) v in
    let numbers : All (HasNumber m') candidates =
      sort-All_inv (HasNumber m') candidates
        (register_all-HasNumber m (sort_by_start candidates)) in
    (
      index_in m',
      spans,
      sort-perm candidates,
      sort-Chain (str_length text) candidates h a,
      apply_mask-replaced text candidates m h a
          ∙ render-alike _ _ text (str_length text) spans
              (All-redacted m' spans (sort-All (HasNumber m') candidates numbers)),
      index_in-Distinct m' candidates numbered numbers,
      numbered,
    )
