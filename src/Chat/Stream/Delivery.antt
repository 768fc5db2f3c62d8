-- ===== src/Chat/Stream/Delivery.antt =====
-- What a stream delivers, told from the times of the arrivals.
use ai_serving_backend.Prelude.{
  ℕ, ◌+◌, ◌≤◌, ◌<◌, ◌≡◌, refl, ◌⊎◌, inl, inr, Option, none, some, List, [], ◌∷◌, ◌++◌, map, arith,
  ltb, leb, Bool-cases, Option-cases,
}
use ai_serving_backend.Request.{RequestState, NormalizedUsage}
use ai_serving_backend.Schemas.{NormalizedStreamChunk}
use ai_serving_backend.Schemas.Responses.{chunk_from_normalized}
use ai_serving_backend.Errors.{Exception, api, http, validation, other, openai_error_body}
use ai_serving_backend.Chat.Stream.{
  Outcome, yields, stops, fails, Arrival, Next, got, stopped, timed_out, failed,
  next_chunk_with_deadline, Piece, data_chunk, stream_timeout_sse, timed_out_state, stream_failure,
  usage_after, then_pieces, Generator, to_sse, stream_loop, stream_body,
}
use ai_serving_backend.Chat.Stream.Endings.{
  Ending, completed, late, broken, Heard, silence, tardy, ends, breaks, hears, newest, last_usage,
  ending,
}

pub next-late :
    (d now : ℕ) (a : Arrival)
    → d ≤ now + a.pause + a.wait
    → (t : ℕ) × (next_chunk_with_deadline d now a ≡ timed_out t)
unfolding next_chunk_with_deadline
next-late d now a h = elim (Bool-cases (leb d (now + a.pause))) [
  | inl past ↦ (now + a.pause, rw past refl)
  | inr soon ↦ (d, ground (arith, soon))
]

next-in_time :
    (d now : ℕ) (a : Arrival)
    → now + a.pause + a.wait < d
    → next_chunk_with_deadline d now a ≡ elim a.outcome [
      | yields c ↦ got c (now + a.pause + a.wait)
      | stops ↦ stopped (now + a.pause + a.wait)
      | fails e ↦ failed e (now + a.pause + a.wait)
    ]
unfolding next_chunk_with_deadline
next-in_time d now a h = ground arith

timeout-ending :
    (usage : Option NormalizedUsage) (s : RequestState)
    → ◌≡◌ {A = List Piece × RequestState}
        (stream_timeout_sse ∷ [], timed_out_state s)
        (ending usage late s)
unfolding openai_error_body
timeout-ending usage s = refl

stream_failure-ending :
    (usage : Option NormalizedUsage) (e : Exception) (s : RequestState)
    → stream_failure e s ≡ ending usage (broken e) s
unfolding stream_failure openai_error_body
stream_failure-ending usage (api e) s = refl
stream_failure-ending usage (http _ _ _) s = refl
stream_failure-ending usage (validation _) s = refl
stream_failure-ending usage other s = refl

usage_after-newest :
    (usage : Option NormalizedUsage) (c : NormalizedStreamChunk)
    → usage_after usage c ≡ newest usage c.usage
usage_after-newest usage c = elim (Option-cases c.usage) [
  | inl absent ↦ rw absent refl
  | inr (u, present) ↦ rw present refl
]

loop-Heard :
    (g : Generator) (now : ℕ) (upstream : List Arrival) (chunks : List NormalizedStreamChunk)
    (end : Ending) (usage : Option NormalizedUsage) (s : RequestState)
    → Heard g.deadline now upstream chunks end
    → stream_loop g upstream now none usage s
      ≡ then_pieces (map (to_sse g) chunks) (ending (last_usage usage chunks) end s)
unfolding stream_loop last_usage
loop-Heard g now _ _ _ usage s (silence _) = timeout-ending usage s
loop-Heard g now _ _ _ usage s (tardy _ a upstream h) =
    rw (stream_loop, (next-late g.deadline now a h).1) (timeout-ending usage s)
loop-Heard g now _ _ _ usage s (ends _ a upstream h e) =
    rw (stream_loop, next-in_time g.deadline now a h, e) refl
loop-Heard g now _ _ _ usage s (breaks _ a upstream x h e) =
    rw (stream_loop, next-in_time g.deadline now a h, e) (stream_failure-ending usage x s)
loop-Heard g now _ _ _ usage s (hears _ a upstream c chunks end h e k) =
    rw
      (
        stream_loop,
        next-in_time g.deadline now a h,
        e,
        usage_after-newest usage c,
        loop-Heard g _ upstream chunks end (newest usage c.usage) s k,
      )
      refl

hear :
    (d now : ℕ) (upstream : List Arrival)
    → (chunks : List NormalizedStreamChunk) × (end : Ending) × Heard d now upstream chunks end
hear d now [] = ([], late, silence now)
hear d now (a ∷ upstream) = elim (Bool-cases (ltb (now + a.pause + a.wait) d)) [
  | inr slow ↦ ([], late, tardy now a upstream (ground (arith, slow)))
  | inl quick ↦
      heard_in_time d now a upstream (ground (arith, quick)) a.outcome refl
        (hear d (now + a.pause + a.wait) upstream)
]
  where
    heard_in_time :
        (d now : ℕ) (a : Arrival) (upstream : List Arrival)
        → now + a.pause + a.wait < d
        → (o : Outcome) → a.outcome ≡ o
        → ((chunks : List NormalizedStreamChunk) × (end : Ending) × Heard d
              (now + a.pause + a.wait)
              upstream
              chunks
              end)
        → (chunks : List NormalizedStreamChunk) × (end : Ending) × Heard d now
            (a ∷ upstream)
            chunks
            end
    heard_in_time d now a upstream h (yields c) e (chunks, end, k) =
        (c ∷ chunks, end, hears now a upstream c chunks end h e k)
    heard_in_time d now a upstream h stops e _ = ([], completed, ends now a upstream h e)
    heard_in_time d now a upstream h (fails x) e _ = ([], broken x, breaks now a upstream x h e)

abbrev pub firsts : Option NormalizedStreamChunk → List NormalizedStreamChunk
firsts none = []
firsts (some c) = c ∷ []

pub body-Heard :
    (g : Generator) (first : Option NormalizedStreamChunk) (now : ℕ) (upstream : List Arrival)
    (chunks : List NormalizedStreamChunk) (end : Ending) (s : RequestState)
    → Heard g.deadline now upstream chunks end
    → stream_body g first upstream now none s
      ≡ then_pieces
          (map (to_sse g) (firsts first ++ chunks))
          (ending (last_usage none (firsts first ++ chunks)) end s)
unfolding stream_body last_usage
body-Heard g none now upstream chunks end s h = loop-Heard g now upstream chunks end none s h
body-Heard g (some c) now upstream chunks end s h =
    rw (usage_after-newest none c, loop-Heard g now upstream chunks end (newest none c.usage) s h)
      refl

-- the piece of one chunk: the chunk in the public form, as data
abbrev pub sent : Generator → NormalizedStreamChunk → Piece
sent g c = data_chunk (chunk_from_normalized c g.fallback_id g.model)

-- To a client that stays, a stream sends the first chunk that the handler has taken, if there is one,
-- and the chunks that came before the deadline, each as one piece and in order, and then exactly one
-- last piece: the end marker when the upstream stream ended in time, the timeout error when an answer
-- was late, and when it failed the body of the application's error, or an internal error for any other.
-- The state that is left has the usage of the last chunk that had one; or the type and status of the
-- failure: the timeout's 504, the application's error's own, or a server error's 500.
pub stream_body-Heard :
    (g : Generator) (first : Option NormalizedStreamChunk) (now : ℕ) (upstream : List Arrival)
    (s : RequestState)
    → (chunks : List NormalizedStreamChunk) × (end : Ending) × Heard g.deadline now upstream chunks
        end
      × (stream_body g first upstream now none s
          ≡ then_pieces
              (map (sent g) (firsts first ++ chunks))
              (ending (last_usage none (firsts first ++ chunks)) end s))
stream_body-Heard g first now upstream s =
    let (chunks, end, h) = hear g.deadline now upstream in
    (chunks, end, h, body-Heard g first now upstream chunks end s h)

pub Next-cases :
    (x : Next)
    → ((c : NormalizedStreamChunk) × (t : ℕ) × (x ≡ got c t))
      ⊎ ((t : ℕ) × (x ≡ stopped t))
      ⊎ ((t : ℕ) × (x ≡ timed_out t))
      ⊎ ((e : Exception) × (t : ℕ) × (x ≡ failed e t))
Next-cases (got c t) = inl (c, t, refl)
Next-cases (stopped t) = inr (inl (t, refl))
Next-cases (timed_out t) = inr (inr (inl (t, refl)))
Next-cases (failed e t) = inr (inr (inr (e, t, refl)))
