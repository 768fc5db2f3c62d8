-- ===== src/Pii/Placeholders.antt =====
-- app/compliance/pii.py: the numbers that placeholders get, and what the first loop of `_apply_mask`
-- makes sure of.
use ai_serving_backend.Prelude.{
  ℕ, ◌+◌, ◌≤◌, String, ◌≡◌, refl, sym, ◌∙◌, ap, ◌⊎◌, true, eq_refl, none, some, List, [], ◌∷◌, ◌++◌,
  arith, All, ◌&&◌, str_eq, eq_iff, if◌then◌else◌, Option-cases, Bool-cases, inl, inr,
}
use ai_serving_backend.Prelude.Dict
use ai_serving_backend.Prelude.Dict.{Dict, get_or, get-put}
use ai_serving_backend.Pii.{PiiType, name, same_type, Candidate}
use ai_serving_backend.Pii.Mask.{Slot, Masks, no_masks, slot_index, register, register_all}

-- In the dictionaries of the masking so far, no number of a type is above the type's last one, and two
-- values of a type have two numbers.
pub record Numbered (m : Masks) : Type 0 where
  pub bounded :
      (t : PiiType) (raw : String) (i : ℕ)
      → slot_index t raw m.placeholders ≡ some i
      → i ≤ get_or (name t) 0 m.next_indexes
  pub distinct :
      (t : PiiType) (raw raw' : String) (i : ℕ)
      → slot_index t raw m.placeholders ≡ some i
      → slot_index t raw' m.placeholders ≡ some i
      → raw ≡ raw'

pub no_masks-Numbered : Numbered no_masks
unfolding slot_index
no_masks-Numbered = record { bounded = λ t raw i e. cc; distinct = λ t raw raw' i e e'. cc }

get_or-put :
    (k j : String) (v : ℕ) (d : Dict ℕ)
    → get_or j 0 (Dict.put k v d) ≡ (if str_eq k j then v else get_or j 0 d)
get_or-put k j v d = elim (Bool-cases (str_eq k j)) [
  | inl it ↦ rw (get_or, get-put k j v d, it) refl
  | inr other ↦ rw (get_or, get-put k j v d, other) refl
]

slot_index-append :
    (t : PiiType) (raw : String) (slots : List Slot) (s : Slot)
    → slot_index t raw (slots ++ s ∷ []) ≡ elim (slot_index t raw slots) [
      | some i ↦ some i
      | none ↦ if same_type s.pii_type t && str_eq s.raw_value raw then some s.index else none
    ]
unfolding slot_index
slot_index-append t raw [] s = refl
slot_index-append t raw (x ∷ slots) s =
    elim (Bool-cases (same_type x.pii_type t && str_eq x.raw_value raw)) [
      | inl it ↦ rw (slot_index, it) refl
      | inr other ↦ rw (slot_index, other) (slot_index-append t raw slots s)
    ]

-- the slot of a value that is new
abbrev new_slot : Masks → Candidate → Slot
new_slot m c = record {
  pii_type = c.pii_type;
  raw_value = c.raw_value;
  index = get_or (name c.pii_type) 0 m.next_indexes + 1;
}

register-known :
    (m : Masks) (c : Candidate) (i : ℕ)
    → slot_index c.pii_type c.raw_value m.placeholders ≡ some i
    → ((register m c).placeholders ≡ m.placeholders)
      × ((register m c).next_indexes ≡ m.next_indexes)
unfolding register
register-known m c i e = (rw (register, e) refl, rw (register, e) refl)

register-new :
    (m : Masks) (c : Candidate)
    → slot_index c.pii_type c.raw_value m.placeholders ≡ none
    → ((register m c).placeholders ≡ m.placeholders ++ new_slot m c ∷ [])
      × ((register m c).next_indexes
          ≡ Dict.put
              (name c.pii_type)
              (get_or (name c.pii_type) 0 m.next_indexes + 1)
              m.next_indexes)
unfolding register
register-new m c e = (rw (register, e) refl, rw (register, e) refl)

-- A number that a value has once a candidate is registered is one that it had, or the new one.
slot_after :
    (m : Masks) (c : Candidate) (t : PiiType) (raw : String) (i : ℕ)
    → slot_index t raw (m.placeholders ++ new_slot m c ∷ []) ≡ some i
    → (slot_index t raw m.placeholders ≡ some i)
      ⊎ ((name c.pii_type ≡ name t)
          × (c.raw_value ≡ raw)
          × (i ≡ get_or (name c.pii_type) 0 m.next_indexes + 1))
slot_after m c t raw i h =
    let told = sym (slot_index-append t raw m.placeholders (new_slot m c)) ∙ h in
    elim (Option-cases (slot_index t raw m.placeholders)) [
      | inr (j, had) ↦ inl (had ∙ rw had at told)
      | inl had_none ↦
          let new = rw had_none at told in
          inr (ground (arith, new, eq_iff (name c.pii_type) (name t), eq_iff c.raw_value raw))
    ]

bounded_after :
    (m : Masks) (c : Candidate) (t : PiiType) (raw : String) (i : ℕ)
    → Numbered m
    → slot_index t raw (m.placeholders ++ new_slot m c ∷ []) ≡ some i
    → i
      ≤ get_or (name t) 0 (
          Dict.put (name c.pii_type) (get_or (name c.pii_type) 0 m.next_indexes + 1) m.next_indexes)
bounded_after m c t raw i v h =
    let last = get_or (name c.pii_type) 0 m.next_indexes in
    rw (get_or-put (name c.pii_type) (name t) (last + 1) m.next_indexes)
      (elim (slot_after m c t raw i h) [
        | inl had ↦ elim (Bool-cases (str_eq (name c.pii_type) (name t))) [
          | inl it ↦
              let same = (eq_iff (name c.pii_type) (name t)).0 it in
              rw it (omega (arith, v.bounded t raw i had, ap (λ n. get_or n 0 m.next_indexes) same))
          | inr other ↦ rw other (v.bounded t raw i had)
        ]
        | inr (same, value, new) ↦
            rw ((eq_iff (name c.pii_type) (name t)).1 same) (omega (arith, new))
      ])

distinct_after :
    (m : Masks) (c : Candidate) (t : PiiType) (raw raw' : String) (i : ℕ)
    → Numbered m
    → slot_index t raw (m.placeholders ++ new_slot m c ∷ []) ≡ some i
    → slot_index t raw' (m.placeholders ++ new_slot m c ∷ []) ≡ some i
    → raw ≡ raw'
distinct_after m c t raw raw' i v h h' = elim (slot_after m c t raw i h) [
  | inl had ↦ elim (slot_after m c t raw' i h') [
    | inl had' ↦ v.distinct t raw raw' i had had'
    | inr (same, value, new) ↦
        absurd (omega (arith, new, v.bounded t raw i had, ap (λ n. get_or n 0 m.next_indexes) same))
  ]
  | inr (same, value, new) ↦ elim (slot_after m c t raw' i h') [
    | inl had' ↦
        absurd
          (omega (arith, new, v.bounded t raw' i had', ap (λ n. get_or n 0 m.next_indexes) same))
    | inr (same', value', new') ↦ sym value ∙ value'
  ]
]

register-Numbered : (m : Masks) (c : Candidate) → Numbered m → Numbered (register m c)
register-Numbered m c v = elim (Option-cases (slot_index c.pii_type c.raw_value m.placeholders)) [
  | inr (i, known) ↦
      let (p, n) = register-known m c i known in
      record {
        bounded = λ t raw i. rw (p, n) (v.bounded t raw i);
        distinct = λ t raw raw' i. rw p (v.distinct t raw raw' i);
      }
  | inl new ↦
      let (p, n) = register-new m c new in
      record {
        bounded = λ t raw i. rw (p, n) (bounded_after m c t raw i v);
        distinct = λ t raw raw' i. rw p (distinct_after m c t raw raw' i v);
      }
]

pub register_all-Numbered :
    (m : Masks) (cs : List Candidate) → Numbered m → Numbered (register_all m cs)
unfolding register_all
register_all-Numbered m [] v = v
register_all-Numbered m (c ∷ cs) v =
    register_all-Numbered (register m c) cs (register-Numbered m c v)

-- The value has a number.
abbrev pub HasNumber : Masks → Candidate → Type 0
HasNumber m c = (i : ℕ) × (slot_index c.pii_type c.raw_value m.placeholders ≡ some i)

same_type_refl : (t : PiiType) → same_type t t ≡ true
same_type_refl t = eq_refl (name t)

register-HasNumber : (m : Masks) (c : Candidate) → HasNumber (register m c) c
register-HasNumber m c = elim (Option-cases (slot_index c.pii_type c.raw_value m.placeholders)) [
  | inr (i, known) ↦ (i, rw (register-known m c i known).0 known)
  | inl new ↦ (
    get_or (name c.pii_type) 0 m.next_indexes + 1,
    rw
        (
          (register-new m c new).0,
          slot_index-append c.pii_type c.raw_value m.placeholders (new_slot m c),
          new,
          same_type_refl c.pii_type,
          eq_refl c.raw_value,
        )
        refl,
  )
]

register-keeps : (m : Masks) (d c : Candidate) → HasNumber m c → HasNumber (register m d) c
register-keeps m d c (i, e) =
    elim (Option-cases (slot_index d.pii_type d.raw_value m.placeholders)) [
      | inr (j, known) ↦ (i, rw (register-known m d j known).0 e)
      | inl new ↦ (
        i,
        rw
            (
              (register-new m d new).0,
              slot_index-append c.pii_type c.raw_value m.placeholders (new_slot m d),
              e,
            )
            refl,
      )
    ]

register_all-keeps :
    (m : Masks) (cs : List Candidate) (c : Candidate)
    → HasNumber m c
    → HasNumber (register_all m cs) c
unfolding register_all
register_all-keeps m [] c h = h
register_all-keeps m (d ∷ cs) c h = register_all-keeps (register m d) cs c (register-keeps m d c h)

-- After the first loop every candidate's value has a number.
pub register_all-HasNumber :
    (m : Masks) (cs : List Candidate) → All (HasNumber (register_all m cs)) cs
unfolding register_all
register_all-HasNumber m [] = tt
register_all-HasNumber m (c ∷ cs) = (
  register_all-keeps (register m c) cs c (register-HasNumber m c),
  register_all-HasNumber (register m c) cs,
)
