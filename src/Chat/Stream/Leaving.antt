-- ===== src/Chat/Stream/Leaving.antt =====
-- What is sent to a client that goes away.
use ai_serving_backend.Prelude.{
  ℕ, zero, suc, ◌≡◌, refl, sym, ap, inl, inr, Option, none, some, List, [], ◌∷◌, take,
}
use ai_serving_backend.Request.{RequestState, NormalizedUsage}
use ai_serving_backend.Schemas.{NormalizedStreamChunk}
use ai_serving_backend.Errors.{Exception, api, http, validation, other}
use ai_serving_backend.Chat.Stream.{
  Arrival, next_chunk_with_deadline, Piece, done, stream_timeout_sse, stream_failure, usage_after,
  after_yield, then_pieces, Generator, to_sse, stream_loop,
}
use ai_serving_backend.Chat.Stream.Delivery.{Next-cases}

take-nil : (n : ℕ) → take {A = Piece} n [] ≡ []
take-nil zero = refl
take-nil (suc n) = refl

take-one : (n : ℕ) (p : Piece) → take (suc n) (p ∷ []) ≡ p ∷ []
take-one zero p = refl
take-one (suc n) p = refl

failure-take :
    (n : ℕ) (e : Exception) (s : RequestState)
    → take (suc n) (stream_failure e s).0 ≡ (stream_failure e s).0
unfolding stream_failure
failure-take n (api e) s = take-one n _
failure-take n (http _ _ _) s = take-one n _
failure-take n (validation _) s = take-one n _
failure-take n other s = take-one n _

-- A client that goes away after `n + 1` pieces has been sent the first `n + 1` pieces of those that a
-- client that stays is sent.
pub stream_loop-take :
    (g : Generator) (upstream : List Arrival) (now n : ℕ) (usage : Option NormalizedUsage)
    (s : RequestState)
    → (stream_loop g upstream now (some n) usage s).0
      ≡ take (suc n) (stream_loop g upstream now none usage s).0
unfolding stream_loop
stream_loop-take g [] now n usage s = ap (◌∷◌ stream_timeout_sse) (sym (take-nil n))
stream_loop-take g (a ∷ upstream) now n usage s =
    elim (Next-cases (next_chunk_with_deadline g.deadline now a)) [
      | inl (c, t, e) ↦
          rw (stream_loop, e)
            (taken c t n (λ m. stream_loop-take g upstream t m (usage_after usage c) s))
      | inr (inl (t, e)) ↦ rw (stream_loop, e) (ap (◌∷◌ done) (sym (take-nil n)))
      | inr (inr (inl (t, e))) ↦
          rw (stream_loop, e) (ap (◌∷◌ stream_timeout_sse) (sym (take-nil n)))
      | inr (inr (inr (x, t, e))) ↦ rw (stream_loop, e) (sym (failure-take n x s))
    ]
  where
    taken :
        (c : NormalizedStreamChunk) (t n : ℕ)
        → ((m : ℕ)
            → (stream_loop g upstream t (some m) (usage_after usage c) s).0
              ≡ take (suc m) (stream_loop g upstream t none (usage_after usage c) s).0)
        → (then_pieces (to_sse g c ∷ []) (
            after_yield
              (some n)
              ([], s)
              (λ p. stream_loop g upstream t p (usage_after usage c) s))).0
          ≡ take
              (suc n)
              (then_pieces
                (to_sse g c ∷ [])
                (stream_loop g upstream t none (usage_after usage c) s)).0
    taken c t zero ih = refl
    taken c t (suc m) ih = ap (◌∷◌ (to_sse g c)) (ih m)
