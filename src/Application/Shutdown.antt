-- ===== src/Application/Shutdown.antt =====
-- app/main.py: the end of `lifespan`. A limiter is the object's identity; whether an object has a
-- method to close it is a function of it.
use ai_serving_backend.Prelude.{
  ℕ, ◌+◌, ◌≡◌, refl, Bool, true, false, ◌&&◌, Option, none, some, List, [], ◌∷◌, ◌++◌, arith, ◌==◌,
  ==_iff, any, ap, if◌then◌else◌, Bool-cases, inl, inr,
}

pub data Action : Type 0 where
  -- asyncio.gather of these tasks, whose exceptions are returned
  gather : List ℕ → Action
  close : ℕ → Action
  dispose_engine : Action

abbrev gather_all : List ℕ → List Action
gather_all [] = []
gather_all (t ∷ ts) = gather (t ∷ ts) ∷ []

module _ (has_close : ℕ → Bool) where
  abbrev close_if : ℕ → List Action → List Action
  close_if limiter rest = if has_close limiter then close limiter ∷ rest else rest

  abbrev pub seen : ℕ → List ℕ → Bool
  seen limiter closed = any (λ c. c == limiter) closed

  -- the loop over the two limiters, with closed_limiter_ids
  unfoldable pub close_limiters : List ℕ → List (Option ℕ) → List Action
  close_limiters closed [] = []
  close_limiters closed (none ∷ limiters) = close_limiters closed limiters
  close_limiters closed (some l ∷ limiters) =
      let again = close_limiters closed limiters in
      let first = close_if l (close_limiters (l ∷ closed) limiters) in
      if seen l closed then again else first

  -- the `finally` clause of lifespan
  unfoldable pub shutdown : List ℕ → List ℕ → List (Option ℕ) → List Action
  unfolding close_limiters
  shutdown audit_tasks auth_tasks limiters =
      gather_all (audit_tasks ++ auth_tasks)
      ++ (close_limiters [] limiters ++ (dispose_engine ∷ []))

  abbrev closes_it : ℕ → Action → ℕ
  closes_it k (gather ts) = 0
  closes_it k (close l) = if l == k then 1 else 0
  closes_it k dispose_engine = 0

  -- How often a limiter is closed.
  abbrev pub times_closed : ℕ → List Action → ℕ
  times_closed k [] = 0
  times_closed k (a ∷ as') = closes_it k a + times_closed k as'

  abbrev pub is_it : ℕ → Option ℕ → Bool
  is_it k none = false
  is_it k (some l) = l == k

  seen-eq : (l k : ℕ) (closed : List ℕ) → (l == k) ≡ true → seen l closed ≡ seen k closed
  seen-eq l k closed e = ap (λ m. seen m closed) ((==_iff l k).0 e)

  close_limiters-once :
      (k : ℕ) (closed : List ℕ) (limiters : List (Option ℕ))
      → times_closed k (close_limiters closed limiters)
        ≡ (if seen k closed then 0 else if any (is_it k) limiters && has_close k then 1 else 0)
  unfolding close_limiters
  close_limiters-once k closed [] = ground arith
  close_limiters-once k closed (none ∷ limiters) = close_limiters-once k closed limiters
  close_limiters-once k closed (some l ∷ limiters) = elim (Bool-cases (seen l closed)) [
    | inl before ↦
        rw before
          (ground (arith, before, close_limiters-once k closed limiters, seen-eq l k closed))
    | inr fresh ↦
        rw fresh
          (ground (arith, fresh, close_limiters-once k (l ∷ closed) limiters, seen-eq l k closed))
  ]

  times_closed-append :
      (k : ℕ) (before after : List Action)
      → times_closed k (before ++ after) ≡ times_closed k before + times_closed k after
  times_closed-append k [] after = omega arith
  times_closed-append k (a ∷ before) after = omega (arith, times_closed-append k before after)

  times_closed-gather_all : (k : ℕ) (tasks : List ℕ) → times_closed k (gather_all tasks) ≡ 0
  times_closed-gather_all k [] = refl
  times_closed-gather_all k (t ∷ ts) = omega arith

  -- A shutdown closes each limiter of the application that can be closed exactly once, also when both
  -- names stand for one object, and nothing else.
  pub shutdown-once :
      (k : ℕ) (audit_tasks auth_tasks : List ℕ) (limiters : List (Option ℕ))
      → times_closed k (shutdown audit_tasks auth_tasks limiters)
        ≡ (if any (is_it k) limiters && has_close k then 1 else 0)
  unfolding shutdown
  shutdown-once k audit_tasks auth_tasks limiters = omega (
    arith,
    times_closed-append k (gather_all (audit_tasks ++ auth_tasks))
        (close_limiters [] limiters ++ (dispose_engine ∷ [])),
    times_closed-append k (close_limiters [] limiters) (dispose_engine ∷ []),
    times_closed-gather_all k (audit_tasks ++ auth_tasks),
    close_limiters-once k [] limiters,
  )
