-- ===== src/Chat/Stream/Termination.antt =====
-- app/routers/chat.py: the loop of `_stream_chunks` under a provider that never ends its stream.
use ai_serving_backend.Prelude.{
  ℕ, ◌+◌, ◌-◌, ◌≤◌, ◌<◌, ◌≡◌, refl, ap, inl, inr, Option, List, [], ◌∷◌, ◌++◌, arith, All, length,
  leb, ltb, ltb→lt, Bool-cases, fun_ext,
}
use ai_serving_backend.Request.{RequestState, NormalizedUsage}
use ai_serving_backend.Schemas.{NormalizedStreamChunk}
use ai_serving_backend.Chat.Stream.{
  Arrival, got, next_chunk_with_deadline, Generator, Patience, Piece, Outcome, yields, stops, fails,
  stream_loop, arrived, usage_after, then_pieces, to_sse, after_yield,
}
use ai_serving_backend.Chat.Stream.Delivery.{Next-cases, next-late}

-- The answer takes some time, before or after it is asked for.
abbrev pub TakesTime : Arrival → Type 0
TakesTime a = 0 < a.pause + a.wait

arrived-got :
    (o : Outcome) (now t : ℕ) (c : NormalizedStreamChunk) → arrived o now ≡ got c t → now ≡ t
arrived-got (yields k) now t c e = cc
arrived-got stops now t c e = cc
arrived-got (fails x) now t c e = cc

-- A chunk that is got in time is got later than now, and before the deadline.
got-later :
    (d now t : ℕ) (a : Arrival) (c : NormalizedStreamChunk)
    → TakesTime a
    → next_chunk_with_deadline d now a ≡ got c t
    → (now < t) × (t < d)
unfolding next_chunk_with_deadline
got-later d now t a c h e = elim (Bool-cases (leb d (now + a.pause))) [
  | inl past ↦ let e' = rw past at e in absurd (cc)
  | inr soon ↦ elim (Bool-cases (ltb a.wait (d - (now + a.pause)))) [
    | inl quick ↦
        let e' = rw (soon, quick) at e in
        let same = arrived-got a.outcome (now + a.pause + a.wait) t c e' in
        (omega (arith, same), omega (arith, same, ltb→lt _ _ quick))
    | inr slow ↦ let e' = rw (soon, slow) at e in absurd (cc)
  ]
]

-- Under a provider whose answers take time the loop ends: what it sends and what it leaves depend on
-- no more arrivals than there are units of time until the deadline: whatever the provider would send
-- after these, if it never stopped, is not asked for.
pub stream_loop-ends :
    (g : Generator) (upstream rest : List Arrival) (now : ℕ) (patience : Patience)
    (usage : Option NormalizedUsage) (s : RequestState)
    → All TakesTime upstream
    → g.deadline ≤ now + length upstream
    → stream_loop g (upstream ++ rest) now patience usage s
      ≡ stream_loop g upstream now patience usage s
unfolding stream_loop
stream_loop-ends g [] [] now patience usage s h k = refl
stream_loop-ends g [] (a ∷ rest) now patience usage s h k =
    rw (stream_loop, (next-late g.deadline now a (omega (arith, k))).1) refl
stream_loop-ends g (a ∷ upstream) rest now patience usage s h k =
    elim (Next-cases (next_chunk_with_deadline g.deadline now a)) [
      | inl (c, t, e) ↦
          let (later, in_time) = got-later g.deadline now t a c h.0 e in
          let next = λ (p : Patience).
            stream_loop-ends g upstream rest t p (usage_after usage c) s h.1
              (omega (arith, later, k)) in
          rw (stream_loop, e)
            (ap
              (λ (f : Patience → List Piece × RequestState).
                then_pieces (to_sse g c ∷ []) (after_yield patience ([], s) f))
              (fun_ext next))
      | inr (inl (t, e)) ↦ rw (stream_loop, e) refl
      | inr (inr (inl (t, e))) ↦ rw (stream_loop, e) refl
      | inr (inr (inr (x, t, e))) ↦ rw (stream_loop, e) refl
    ]
