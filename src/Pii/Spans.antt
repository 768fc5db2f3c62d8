-- ===== src/Pii/Spans.antt =====
-- The spans that are masked, and the text that masking leaves.
use ai_serving_backend.Prelude.{
  ℕ, ◌≤◌, ◌<◌, String, ◌≡◌, ◌⊎◌, inl, inr, false, List, [], ◌∷◌, ◌++◌, arith, leb, All, All-append,
  Bool-cases,
}
use ai_serving_backend.Pii.{
  Candidate, Scanner, PiiType, overlaps, accept, detect, collect_from, collect_candidates,
  enabled_by, detector_priority,
}
use ai_serving_backend.Pii.Mask.{insert_by_start_desc, sort_by_start_desc}

-- No character is in both spans.
abbrev pub Disjoint : Candidate → Candidate → Type 0
Disjoint c d = (c.end ≤ d.start) ⊎ (d.end ≤ c.start)

abbrev pub Apart : List Candidate → Type 0
Apart [] = Unit {0}
Apart (c ∷ cs) = All (Disjoint c) cs × Apart cs

overlaps-Disjoint :
    (c : Candidate) (cs : List Candidate) → overlaps c cs ≡ false → All (Disjoint c) cs
unfolding overlaps
overlaps-Disjoint c [] e = tt
overlaps-Disjoint c (d ∷ cs) e = (ground arith, overlaps-Disjoint c cs (ground arith))

Apart-concat :
    (cs : List Candidate) (c : Candidate) → Apart cs → All (Disjoint c) cs → Apart (cs ++ c ∷ [])
Apart-concat [] c a d = (tt, tt)
Apart-concat (x ∷ cs) c (d, a) (h, hs) =
    (All-append (Disjoint x) cs (c ∷ []) d (ground arith, tt), Apart-concat cs c a hs)

accept-Apart : (accepted cs : List Candidate) → Apart accepted → Apart (accept accepted cs)
unfolding accept
accept-Apart accepted [] a = a
accept-Apart accepted (c ∷ cs) a = elim (Bool-cases (overlaps c accepted)) [
  | inl clash ↦ rw clash (accept-Apart accepted cs a)
  | inr clear ↦ rw clear (
      accept-Apart (accepted ++ c ∷ []) cs
        (Apart-concat accepted c a (overlaps-Disjoint c accepted clear)))
]

module _ (P : Candidate → Type 0) where
  accept-All :
      (accepted cs : List Candidate) → All P accepted → All P cs → All P (accept accepted cs)
  unfolding accept
  accept-All accepted [] h k = h
  accept-All accepted (c ∷ cs) h k = elim (Bool-cases (overlaps c accepted)) [
    | inl clash ↦ rw clash (accept-All accepted cs h k.1)
    | inr clear ↦
        rw clear
          (accept-All (accepted ++ c ∷ []) cs (All-append P accepted (c ∷ []) h (k.0, tt)) k.1)
  ]

  collect_from-All :
      (s : Scanner) (text : String) (enabled : List String) (types : List PiiType)
      (accepted : List Candidate)
      → ((t : PiiType) → All P (detect s t text))
      → All P accepted
      → All P (collect_from s text enabled types accepted)
  unfolding collect_from
  collect_from-All s text enabled [] accepted found h = h
  collect_from-All s text enabled (t ∷ types) accepted found h =
      elim (Bool-cases (enabled_by enabled t)) [
        | inl on ↦ rw on (
            collect_from-All s text enabled types _ found
              (accept-All accepted (detect s t text) h (found t)))
        | inr off ↦ rw off (collect_from-All s text enabled types _ found h)
      ]

collect_from-Apart :
    (s : Scanner) (text : String) (enabled : List String) (types : List PiiType)
    (accepted : List Candidate)
    → Apart accepted
    → Apart (collect_from s text enabled types accepted)
unfolding collect_from
collect_from-Apart s text enabled [] accepted a = a
collect_from-Apart s text enabled (t ∷ types) accepted a =
    elim (Bool-cases (enabled_by enabled t)) [
      | inl on ↦
          rw on
            (collect_from-Apart s text enabled types _ (accept-Apart accepted (detect s t text) a))
      | inr off ↦ rw off (collect_from-Apart s text enabled types _ a)
    ]

-- Whatever the four scans find, and however their matches overlap, the candidates that are accepted
-- for masking have no character in common.
pub collect_candidates-Apart :
    (s : Scanner) (text : String) (enabled : List String)
    → Apart (collect_candidates s text enabled)
unfolding collect_candidates
collect_candidates-Apart s text enabled = collect_from-Apart s text enabled detector_priority [] tt

-- A span of the text, with at least one character.
abbrev pub InText : ℕ → Candidate → Type 0
InText n c = (c.start < c.end) × (c.end ≤ n)

-- Spans from the right to the left, the first of them ending by `p`.
abbrev pub Chain : ℕ → List Candidate → Type 0
Chain p [] = Unit {0}
Chain p (c ∷ cs) = (c.start < c.end) × (c.end ≤ p) × Chain c.start cs

insert-Chain :
    (p : ℕ) (c : Candidate) (ds : List Candidate)
    → c.start < c.end
    → c.end ≤ p
    → All (Disjoint c) ds
    → Chain p ds
    → Chain p (insert_by_start_desc c ds)
unfolding insert_by_start_desc
insert-Chain p c [] h k d ch = (h, k, tt)
insert-Chain p c (x ∷ ds) h k d ch = ground (arith, d.0, insert-Chain x.start c ds h)

module _ (P : Candidate → Type 0) where
  insert-All :
      (c : Candidate) (ds : List Candidate) → P c → All P ds → All P (insert_by_start_desc c ds)
  unfolding insert_by_start_desc
  insert-All c [] h k = (h, tt)
  insert-All c (x ∷ ds) h k = elim (Bool-cases (leb x.start c.start)) [
    | inl before ↦ rw before (h, k)
    | inr after ↦ rw after (k.0, insert-All c ds h k.1)
  ]

  pub sort-All : (cs : List Candidate) → All P cs → All P (sort_by_start_desc cs)
  unfolding sort_by_start_desc
  sort-All [] h = tt
  sort-All (c ∷ cs) h = insert-All c (sort_by_start_desc cs) h.0 (sort-All cs h.1)

pub sort-Chain :
    (n : ℕ) (cs : List Candidate) → All (InText n) cs → Apart cs → Chain n (sort_by_start_desc cs)
unfolding sort_by_start_desc
sort-Chain n [] h a = tt
sort-Chain n (c ∷ cs) h a =
    insert-Chain n c (sort_by_start_desc cs) h.0.0 h.0.1 (sort-All (Disjoint c) cs a.0)
      (sort-Chain n cs h.1 a.1)
