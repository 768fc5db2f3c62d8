-- ===== src/Pii/Redacted.antt =====
-- app/compliance/pii.py: the text of a placeholder, and which values share one.
use Prim.Native.String
use ai_serving_backend.Prelude.{ℕ, String, ◌≡◌, refl, ◌∙◌, ap, none, some, List, [], ◌∷◌, All}
use ai_serving_backend.Prelude.Text.{str_nat}
use ai_serving_backend.Pii.{PiiType, email, rrn, card, phone, upper_name, Candidate}
use ai_serving_backend.Pii.Mask.{Masks, slot_index, placeholder, placeholder_of}
use ai_serving_backend.Pii.Placeholders.{Numbered, HasNumber}

-- The number of a value, or 0.
abbrev pub index_in : Masks → PiiType → String → ℕ
index_in m t raw = elim (slot_index t raw m.placeholders) [ none ↦ 0 | some i ↦ i ]

abbrev pub type_label : PiiType → String
type_label email = "EMAIL"
type_label rrn = "RRN"
type_label card = "CARD"
type_label phone = "PHONE"

-- "[REDACTED:<TYPE>:<number>]"
abbrev pub redacted : (PiiType → String → ℕ) → Candidate → String
redacted index c = String.◌++◌ "[REDACTED:" (
    String.◌++◌ (type_label c.pii_type)
      (String.◌++◌ ":" (String.◌++◌ (str_nat (index c.pii_type c.raw_value)) "]")))

label-upper_name : (t : PiiType) → upper_name t ≡ type_label t
label-upper_name email = refl
label-upper_name rrn = refl
label-upper_name card = refl
label-upper_name phone = refl

pub placeholder_of-redacted :
    (m : Masks) (c : Candidate)
    → HasNumber m c
    → placeholder_of m.placeholders c ≡ redacted (index_in m) c
unfolding placeholder_of placeholder
placeholder_of-redacted m c (i, e) =
    rw (placeholder_of, index_in, e, label-upper_name c.pii_type) refl

-- Two of the candidates of one type have one number only if they have one value.
abbrev pub Distinct : (PiiType → String → ℕ) → List Candidate → Type 0
Distinct index cs =
    All
      (λ c.
        All
          (λ d.
            c.pii_type ≡ d.pii_type
            → index c.pii_type c.raw_value ≡ index d.pii_type d.raw_value
            → c.raw_value ≡ d.raw_value)
          cs)
      cs

same_number :
    (m : Masks) (c d : Candidate)
    → Numbered m
    → HasNumber m c
    → HasNumber m d
    → c.pii_type ≡ d.pii_type
    → index_in m c.pii_type c.raw_value ≡ index_in m d.pii_type d.raw_value
    → c.raw_value ≡ d.raw_value
same_number m c d v (i, e) (j, k) same n =
    let ij : i ≡ j = rw (index_in, e, k) at n in
    v.distinct d.pii_type c.raw_value d.raw_value j (rw same at e ∙ ap some ij) k

All-apply :
    (P Q : Candidate → Type 0) (cs : List Candidate)
    → ((c : Candidate) → P c → Q c)
    → All P cs
    → All Q cs
All-apply P Q [] f h = tt
All-apply P Q (c ∷ cs) f h = (f c h.0, All-apply P Q cs f h.1)

pub index_in-Distinct :
    (m : Masks) (cs : List Candidate) → Numbered m → All (HasNumber m) cs → Distinct (index_in m) cs
index_in-Distinct m cs v h =
    All-apply (HasNumber m) _ cs
      (λ c n. All-apply (HasNumber m) _ cs (λ d k. same_number m c d v n k) h) h
