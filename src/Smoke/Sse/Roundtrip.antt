-- ===== src/Smoke/Sse/Roundtrip.antt =====
-- What `parse_sse_body` makes of the text of an event stream.
use Prim.Native.String
use mathlib.Core.List.{append-nil, append_assoc as list_append_assoc}
use ai_serving_backend.Prelude.{
  ℕ, String, ◌≡◌, refl, ap, ◌∙◌, Bool, true, false, ◌||◌, List, [], ◌∷◌, ◌++◌, str_eq, All, ok,
  Result, ◌>>=◌, is_some, any,
}
use ai_serving_backend.Prelude.Text.{strip}
use ai_serving_backend.Prelude.Text.Lines.{
  splitlines, lines_after, IsOneLine, is_line_break, startswith, removeprefix,
}
use ai_serving_backend.Smoke.Sse.DataLines.{
  data_line-strip, data_line-startswith, sse_data-lines, sse_event-lines,
}
use ai_serving_backend.Json.{Json}
use ai_serving_backend.Errors.{ErrorBody}
use ai_serving_backend.Chat.Stream.{Piece, data_chunk, data_error, event_error, done}
use ai_serving_backend.Smoke.Sse.{
  SseBody, nothing_seen, read_line, read_lines, parse_sse_body, read_payload,
}
use ai_serving_backend.Smoke.Sse.Payloads.{
  choices_text, false_or, or_true, or_assoc, read_payload-dump_chunk, read_payload-dump_error,
}
use ai_serving_backend.Chat.Stream.Render.{
  sse_data, sse_event, dump_chunk, dump_error, JsonEncoders, render_piece, render,
}

abbrev pub piece_text : Piece → List Json
piece_text (data_chunk c) = choices_text c.choices
piece_text (data_error e) = []
piece_text (event_error e) = []
piece_text done = []

-- The contents that the pieces carry, in order.
abbrev pub pieces_text : List Piece → List Json
pieces_text [] = []
pieces_text (p ∷ ps) = piece_text p ++ pieces_text ps

abbrev pub is_done : Piece → Bool
is_done (data_chunk c) = false
is_done (data_error e) = false
is_done (event_error e) = false
is_done done = true

abbrev pub has_usage : Piece → Bool
has_usage (data_chunk c) = is_some c.usage
has_usage (data_error e) = false
has_usage (event_error e) = false
has_usage done = false

-- The text of a JSON value is read back, and is one line with no white space at its ends.
pub record IsReadable (loads : String → Result String Json) (v : Json) (t : String) : Type 0 where
  pub loaded : loads t ≡ ok v
  pub stripped : strip t ≡ t
  pub one_line : IsOneLine t
  pub not_done : str_eq t "[DONE]" ≡ false

module _ (loads : String → Result String Json) where
  read_line-data :
      (v : Json) (t : String) (seen : SseBody)
      → IsReadable loads v t
      → read_line loads (String.◌++◌ "data: " t) seen ≡ read_payload v seen
  unfolding read_line
  read_line-data v t seen h =
      rw (data_line-startswith t, data_line-strip t h.stripped, h.not_done, h.loaded) refl

  read_line-blank : (seen : SseBody) → read_line loads "" seen ≡ ok seen
  unfolding read_line startswith
  read_line-blank seen = refl

  read_line-event : (seen : SseBody) → read_line loads "event: error" seen ≡ ok seen
  unfolding read_line startswith
  read_line-event seen = refl

  read_lines-two :
      (v : Json) (t : String) (lines : List String) (seen : SseBody)
      → IsReadable loads v t
      → read_lines loads (String.◌++◌ "data: " t ∷ "" ∷ lines) seen
        ≡ (read_payload v seen >>= read_lines loads lines)
  unfolding read_lines
  read_lines-two v t lines seen h = rw (read_line-data v t seen h) (simp read_line-blank)

  read_lines-data :
      (v : Json) (t rest : String) (seen : SseBody)
      → IsReadable loads v t
      → read_lines loads (lines_after false (String.◌++◌ (sse_data t) rest)) seen
        ≡ (read_payload v seen >>= read_lines loads (lines_after false rest))
  read_lines-data v t rest seen h =
      ap (λ lines. read_lines loads lines seen) (sse_data-lines t rest h.one_line)
      ∙ read_lines-two v t (lines_after false rest) seen h

  read_lines-error :
      (e : ErrorBody) (t rest : String) (seen : SseBody)
      → IsReadable loads (dump_error e) t
      → read_lines loads (lines_after false (String.◌++◌ (sse_data t) rest)) seen
        ≡ read_lines loads (lines_after false rest) seen
  read_lines-error e t rest seen h =
      read_lines-data (dump_error e) t rest seen h
      ∙ ap (λ r. r >>= read_lines loads (lines_after false rest)) (read_payload-dump_error e seen)

  read_lines-event_line :
      (lines : List String) (seen : SseBody)
      → read_lines loads ("event: error" ∷ lines) seen ≡ read_lines loads lines seen
  unfolding read_lines
  read_lines-event_line lines seen = rw (read_line-event seen) refl

  read_lines-event :
      (e : ErrorBody) (t rest : String) (seen : SseBody)
      → IsReadable loads (dump_error e) t
      → read_lines loads (lines_after false (String.◌++◌ (sse_event "error" t) rest)) seen
        ≡ read_lines loads (lines_after false rest) seen
  read_lines-event e t rest seen h =
      ap (λ lines. read_lines loads lines seen) (sse_event-lines t rest h.one_line)
      ∙ read_lines-event_line _ seen
      ∙ read_lines-two (dump_error e) t (lines_after false rest) seen h
      ∙ ap (λ r. r >>= read_lines loads (lines_after false rest)) (read_payload-dump_error e seen)

  done_line :
      (lines : List String) (seen : SseBody)
      → read_lines loads (String.◌++◌ "data: " "[DONE]" ∷ "" ∷ lines) seen
        ≡ read_lines loads lines (record seen { saw_done = true })
  unfolding read_lines read_line startswith removeprefix strip
  done_line lines seen = refl

  -- The end marker is seen, and is not given to `json.loads`.
  read_lines-done :
      (rest : String) (seen : SseBody)
      → read_lines loads (lines_after false (String.◌++◌ (sse_data "[DONE]") rest)) seen
        ≡ read_lines loads (lines_after false rest) (record seen { saw_done = true })
  unfolding IsOneLine is_line_break
  read_lines-done rest seen =
      ap (λ lines. read_lines loads lines seen)
        (sse_data-lines "[DONE]" rest (refl, (refl, (refl, (refl, (refl, (refl, tt)))))))
      ∙ done_line (lines_after false rest) seen

  module _ (encoders : JsonEncoders) (created : ℕ) where
    -- Every JSON text in a piece can be read.
    abbrev pub PieceReadable : Piece → Type 0
    PieceReadable (data_chunk c) =
        IsReadable loads (dump_chunk created c) (encoders.model_dump_json (dump_chunk created c))
    PieceReadable (data_error e) = IsReadable loads (dump_error e) (encoders.dumps (dump_error e))
    PieceReadable (event_error e) = IsReadable loads (dump_error e) (encoders.dumps (dump_error e))
    PieceReadable done = Unit

    -- What the pieces add to what is seen.
    abbrev after : List Piece → SseBody → SseBody
    after ps seen = record {
      chunks = seen.chunks ++ pieces_text ps;
      saw_done = seen.saw_done || any is_done ps;
      saw_usage = seen.saw_usage || any has_usage ps;
      parse_errors = seen.parse_errors;
    }

    read_lines-render :
        (ps : List Piece) (seen : SseBody)
        → All PieceReadable ps
        → read_lines loads (lines_after false (render encoders created ps)) seen
          ≡ ok (after ps seen)
    unfolding render render_piece lines_after read_lines
    read_lines-render [] seen h =
        rw (append-nil seen.chunks, false_or seen.saw_done, false_or seen.saw_usage) refl
    read_lines-render (data_chunk c ∷ ps) seen h =
        read_lines-data (dump_chunk created c) _ (render encoders created ps) seen h.0
        ∙ ap (λ r. r >>= read_lines loads (lines_after false (render encoders created ps)))
            (read_payload-dump_chunk created c.id c.model c.choices c.usage seen)
        ∙ read_lines-render ps _ h.1
        ∙ rw
            (
              list_append_assoc seen.chunks (choices_text c.choices) (pieces_text ps),
              or_assoc seen.saw_usage (is_some c.usage) (any has_usage ps),
            )
            refl
    read_lines-render (data_error e ∷ ps) seen h =
        read_lines-error e _ _ seen h.0 ∙ read_lines-render ps seen h.1
    read_lines-render (event_error e ∷ ps) seen h =
        read_lines-event e _ _ seen h.0 ∙ read_lines-render ps seen h.1
    read_lines-render (done ∷ ps) seen h =
        read_lines-done (render encoders created ps) seen
        ∙ read_lines-render ps (record seen { saw_done = true }) h.1
        ∙ rw (or_true seen.saw_done) refl

    pub parse_sse_body-render :
        (ps : List Piece)
        → All PieceReadable ps
        → parse_sse_body loads (render encoders created ps)
          ≡ ok (record {
            chunks = pieces_text ps;
            saw_done = any is_done ps;
            saw_usage = any has_usage ps;
            parse_errors = [];
          })
    unfolding parse_sse_body splitlines
    parse_sse_body-render ps h = read_lines-render ps nothing_seen h
