-- ===== src/Prelude/Dict.antt =====
-- Python's `dict` with string keys, in insertion order. A key stands once: `put` overwrites in
-- place. Clients compute by `dict_laws`.
use Prim.Native.String.{String}
use mathlib.Core.Path.{◌≡◌, refl}
use mathlib.Core.Option.{Option, none, some}
use mathlib.Core.List.{List, [], ◌∷◌}
use native.Mathlib.Omega.{arith}
use text.Mathlib.Text.{◌==◌}
use text.Mathlib.TextEquality.{eq_iff}
use ai_serving_backend.Prelude.Tests.{if◌then◌else◌}

abbrev pub Dict {ℓ} : Type ℓ → Type ℓ
Dict V = List (String × V)

module _ {ℓ} {V : Type ℓ} where
  -- d.get(k)
  unfoldable pub get : String → Dict V → Option V
  get k [] = none
  get k ((j, v) ∷ d) = if j == k then some v else get k d

  -- d[k] = v
  unfoldable pub put : String → V → Dict V → Dict V
  put k v [] = (k, v) ∷ []
  put k v ((j, w) ∷ d) = if j == k then (j, v) ∷ d else (j, w) ∷ put k v d

  -- d.pop(k, None)
  unfoldable pub pop : String → Dict V → Dict V
  pop k [] = []
  pop k ((j, v) ∷ d) = let rest = pop k d in if j == k then rest else (j, v) ∷ rest

  pub get-nil : (k : String) → get k [] ≡ none
  unfolding get
  get-nil k = refl

  pub get-put :
      (k j : String) (v : V) (d : Dict V) → get j (put k v d) ≡ (if k == j then some v else get j d)
  unfolding get put
  get-put k j v [] = refl
  get-put k j v ((i, w) ∷ d) = ground (arith, eq_iff k j, eq_iff i k, eq_iff i j, get-put k j v d)

  pub get-pop : (k j : String) (d : Dict V) → get j (pop k d) ≡ (if k == j then none else get j d)
  unfolding get pop
  get-pop k j [] = ground arith
  get-pop k j ((i, w) ∷ d) = ground (arith, eq_iff k j, eq_iff i k, eq_iff i j, get-pop k j d)

pub ruleset dict_laws = (get-nil, get-put, get-pop)

-- d.get(k, default)
abbrev pub get_or {ℓ} : {V : Type ℓ} → String → V → Dict V → V
get_or k default d = elim (get k d) [ none ↦ default | some v ↦ v ]
