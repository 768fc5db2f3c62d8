-- ===== src/RateLimit/Spec.antt =====
-- What a token bucket promises, apart from how it is stored: a level for each key, which rises
-- with time up to the capacity, and from which an allowed request takes one token.
use ai_serving_backend.Prelude.{
  ℕ, ◌+◌, ◌-◌, ◌*◌, ◌≤◌, min, String, ◌≡◌, refl, Bool, true, false, List, [], ◌∷◌, arith, leb,
  str_eq, eq_iff, eq_refl, Bool-cases, inl, inr, if◌then◌else◌,
}
use ai_serving_backend.RateLimit.{Rate, one_token, capacity, Query, allows, previews}

abbrev pub Levels : Type 0
Levels = String → ℕ

-- A tick later, and so on for `dt` ticks.
abbrev pub elapse : Rate → ℕ → ℕ → ℕ
elapse r dt a = min (capacity r) (a + dt * r.requests_per_minute)

-- Is there a token to take?
abbrev pub has_token : Rate → ℕ → Bool
has_token r a = leb (one_token r) a

abbrev pub spend : Rate → ℕ → ℕ
spend r a = if has_token r a then a - one_token r else a

abbrev pub after : Rate → Query → ℕ → ℕ
after r allows a = spend r a
after r previews a = a

abbrev pub at_key : String → (ℕ → ℕ) → Levels → Levels
at_key key f levels k = if str_eq key k then f (levels k) else levels k

-- A call `dt` ticks after the one before.
pub record Call : Type 0 where
  pub dt : ℕ
  pub key : String
  pub query : Query

-- The decisions of a run of calls.
unfoldable pub decisions : Rate → Levels → List Call → List Bool
decisions r levels [] = []
decisions r levels (c ∷ cs) =
    has_token r (elapse r c.dt (levels c.key))
    ∷ decisions r (at_key c.key (after r c.query) (λ k. elapse r c.dt (levels k))) cs

abbrev pub full : Rate → Levels
full r k = capacity r

abbrev pub taken : Query → Bool → Bool → ℕ
taken allows true true = 1
taken _ _ _ = 0

-- How many requests of `k` a run with these decisions lets through.
unfoldable pub granted : String → List Call → List Bool → ℕ
granted k (c ∷ cs) (allowed ∷ ds) = taken c.query (str_eq c.key k) allowed + granted k cs ds
granted k _ _ = 0

unfoldable pub duration : List Call → ℕ
duration [] = 0
duration (c ∷ cs) = c.dt + duration cs

after_pays :
    (r : Rate) (q : Query) (a : ℕ) → taken q true (has_token r a) * one_token r + after r q a ≤ a
after_pays r allows a = ground arith
after_pays r previews a = ground arith

taken_other : (q : Query) (allowed : Bool) → taken q false allowed ≡ 0
taken_other allows allowed = refl
taken_other previews allowed = refl

-- In any run, the requests of a key that are let through take no more tokens than the key had at
-- the start and gained since.
pub granted-le :
    (r : Rate) (levels : Levels) (cs : List Call) (k : String)
    → granted k cs (decisions r levels cs) * one_token r
      ≤ levels k + duration cs * r.requests_per_minute
unfolding granted decisions duration
granted-le r levels [] k = omega arith
granted-le r levels (c ∷ cs) k = elim (Bool-cases (str_eq c.key k)) [
  | inl mine ↦
      let risen = λ (j : String). elapse r c.dt (levels j) in
      let same = (eq_iff c.key k).0 mine in
      rw (same, eq_refl k)
        (omega (
          arith,
          rw (eq_refl k) at (granted-le r (at_key k (after r c.query) risen) cs k),
          after_pays r c.query (elapse r c.dt (levels k)),
        ))
  | inr other ↦
      let risen = λ (j : String). elapse r c.dt (levels j) in
      rw (other, taken_other c.query (has_token r (risen c.key)))
        (omega (arith, rw other at (granted-le r (at_key c.key (after r c.query) risen) cs k)))
]
