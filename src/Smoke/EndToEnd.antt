-- ===== src/Smoke/EndToEnd.antt =====
-- app/routers/chat.py and scripts/smoke_provider.py together: a stream as it is sent, and as it is read.
use package.text.Mathlib.TextLemmas.{nil-append}
use ai_serving_backend.Prelude.{
  ℕ, suc, String, ◌≡◌, refl, ap, ◌∙◌, inl, inr, Bool, true, ◌||◌, Option, none, List, [], ◌∷◌, ◌++◌,
  arith, map, All, any, is_some, Bool-cases, Result, ok, str_eq, eq_iff, if◌then◌else◌,
}
use ai_serving_backend.Request.{RequestState}
use ai_serving_backend.Schemas.{NormalizedStreamChunk}
use ai_serving_backend.Schemas.Responses.{chunk_from_normalized, usage_only}
use ai_serving_backend.Json.{Json, text}
use ai_serving_backend.Chat.Stream.{Arrival, Generator, Piece, done, to_sse, stream_body}
use ai_serving_backend.Chat.Stream.Delivery.{firsts, body-Heard}
use ai_serving_backend.Chat.Stream.Endings.{Heard, completed, all_text}
use ai_serving_backend.Chat.Stream.Render.{JsonEncoders, render}
use ai_serving_backend.Smoke.Sse.{SseBody, parse_sse_body}
use ai_serving_backend.Smoke.Sse.Payloads.{or_true}
use ai_serving_backend.Smoke.Sse.Roundtrip.{
  PieceReadable, pieces_text, piece_text, is_done, has_usage, parse_sse_body-render,
}
use ai_serving_backend.Smoke.Answers.{join_from}

abbrev pub chunk_has_usage : NormalizedStreamChunk → Bool
chunk_has_usage c = is_some c.usage

piece_text-to_sse :
    (g : Generator) (c : NormalizedStreamChunk)
    → piece_text (to_sse g c) ≡ (if str_eq c.delta "" then [] else text c.delta ∷ [])
unfolding chunk_from_normalized usage_only
piece_text-to_sse g c = ground arith

join_from-chunks :
    (g : Generator) (i : ℕ) (cs : List NormalizedStreamChunk)
    → join_from i (pieces_text (map (to_sse g) cs)) ≡ ok (all_text cs)
unfolding join_from
join_from-chunks g i [] = refl
join_from-chunks g i (c ∷ cs) = elim (Bool-cases (str_eq c.delta "")) [
  | inl empty ↦
      rw (piece_text-to_sse g c, empty, (eq_iff c.delta "").0 empty, nil-append)
        (join_from-chunks g i cs)
  | inr full ↦ rw (piece_text-to_sse g c, full) (rw (join_from-chunks g (suc i) cs) refl)
]

pieces_text-done : (ps : List Piece) → pieces_text (ps ++ done ∷ []) ≡ pieces_text ps
pieces_text-done [] = refl
pieces_text-done (p ∷ ps) = ap (λ ts. piece_text p ++ ts) (pieces_text-done ps)

is_done-done : (ps : List Piece) → any is_done (ps ++ done ∷ []) ≡ true
is_done-done [] = refl
is_done-done (p ∷ ps) = rw (is_done-done ps) (or_true (is_done p))

has_usage-done :
    (g : Generator) (cs : List NormalizedStreamChunk)
    → any has_usage (map (to_sse g) cs ++ done ∷ []) ≡ any chunk_has_usage cs
unfolding chunk_from_normalized
has_usage-done g [] = refl
has_usage-done g (c ∷ cs) = ap (λ b. is_some c.usage || b) (has_usage-done g cs)

-- What the script reads of a stream that ended in time, when every JSON text in it can be read: the
-- texts that the provider gave, put together in order, the end marker, a usage exactly when a chunk had
-- one, and no error.
pub parse_sse_body-stream :
    (loads : String → Result String Json) (encoders : JsonEncoders) (created : ℕ) (g : Generator)
    (first : Option NormalizedStreamChunk) (now : ℕ) (upstream : List Arrival)
    (chunks : List NormalizedStreamChunk) (s : RequestState)
    → Heard g.deadline now upstream chunks completed
    → All (PieceReadable loads encoders created) (stream_body g first upstream now none s).0
    → (seen : SseBody) × (parse_sse_body loads
          (render encoders created (stream_body g first upstream now none s).0)
        ≡ ok seen)
      × (join_from 0 seen.chunks ≡ ok (all_text (firsts first ++ chunks)))
      × (seen.saw_done ≡ true)
      × (seen.saw_usage ≡ any chunk_has_usage (firsts first ++ chunks))
      × (seen.parse_errors ≡ [])
parse_sse_body-stream loads encoders created g first now upstream chunks s heard readable =
    let sent = firsts first ++ chunks in
    let pieces : (stream_body g first upstream now none s).0 ≡ map (to_sse g) sent ++ done ∷ [] =
      ap (λ p. p.0) (body-Heard g first now upstream chunks completed s heard) in
    (
      _,
      parse_sse_body-render loads encoders created _ readable,
      ap (λ ps. join_from 0 (pieces_text ps)) pieces
          ∙ ap (join_from 0) (pieces_text-done (map (to_sse g) sent))
          ∙ join_from-chunks g 0 sent,
      ap (any is_done) pieces ∙ is_done-done (map (to_sse g) sent),
      ap (any has_usage) pieces ∙ has_usage-done g sent,
      refl,
    )
