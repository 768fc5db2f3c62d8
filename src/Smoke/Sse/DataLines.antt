-- ===== src/Smoke/Sse/DataLines.antt =====
-- The lines of an event stream's text, and what is left of a data line.
use Prim.Native.String
use text.Mathlib.TextLemmas.{nil-append, cons-append, append_assoc}
use ai_serving_backend.Prelude.{String, ◌≡◌, refl, sym, ap, ◌∙◌, true, false, ◌∷◌}
use ai_serving_backend.Prelude.Text.{strip}
use ai_serving_backend.Prelude.Text.Lines.{
  lines_after, IsOneLine, is_line_break, startswith, removeprefix, lines_after-line,
}
use ai_serving_backend.Chat.Stream.Render.{sse_data, sse_event}

data_prefix :
    (t : String)
    → String.◌++◌ "data: " t
      ≡ String.◌∷◌ "d"
          (String.◌∷◌ "a" (String.◌∷◌ "t" (String.◌∷◌ "a" (String.◌∷◌ ":" (String.◌∷◌ " " t)))))
data_prefix t =
    rw (cons-append, cons-append, cons-append, cons-append, cons-append, cons-append, nil-append)
      refl

data_line-IsOneLine : (t : String) → IsOneLine t → IsOneLine (String.◌++◌ "data: " t)
unfolding IsOneLine is_line_break
data_line-IsOneLine t h = rw (data_prefix t) (refl, (refl, (refl, (refl, (refl, (refl, h))))))

-- What is left of a data line without its prefix and the white space round it.
pub data_line-strip :
    (t : String) → strip t ≡ t → strip (removeprefix (String.◌++◌ "data: " t) "data:") ≡ t
unfolding strip removeprefix
data_line-strip t h = rw (data_prefix t) h

pub data_line-startswith : (t : String) → startswith (String.◌++◌ "data: " t) "data:" ≡ true
unfolding startswith
data_line-startswith t = rw (data_prefix t) refl

blank_lines :
    (line rest : String)
    → IsOneLine line
    → lines_after false (String.◌++◌ (String.◌++◌ line "\n\n") rest)
      ≡ line ∷ "" ∷ lines_after false rest
unfolding lines_after
blank_lines line rest h =
    rw (append_assoc, cons-append, cons-append, nil-append)
      (lines_after-line line (String.◌∷◌ "\n" rest) h)

pub sse_data-lines :
    (t rest : String)
    → IsOneLine t
    → lines_after false (String.◌++◌ (sse_data t) rest)
      ≡ String.◌++◌ "data: " t ∷ "" ∷ lines_after false rest
unfolding sse_data
sse_data-lines t rest h =
    rw (← append_assoc "data: " t "\n\n")
      (blank_lines (String.◌++◌ "data: " t) rest (data_line-IsOneLine t h))

event_line :
    (t rest : String)
    → String.◌++◌ (sse_event "error" t) rest
      ≡ String.◌++◌ "event: error" (String.◌∷◌ "\n" (String.◌++◌ (sse_data t) rest))
unfolding sse_event sse_data
event_line t rest =
    let w = String.◌++◌ t (String.◌++◌ "\n\n" rest) in
    simp append_assoc (
      sym (append_assoc "event: " "error" (String.◌++◌ "\ndata: " w))
      ∙ ap (λ s. String.◌++◌ "event: error" s) (cons-append "\n" "data: " w))

pub sse_event-lines :
    (t rest : String)
    → IsOneLine t
    → lines_after false (String.◌++◌ (sse_event "error" t) rest)
      ≡ "event: error" ∷ String.◌++◌ "data: " t ∷ "" ∷ lines_after false rest
unfolding IsOneLine is_line_break
sse_event-lines t rest h = rw (event_line t rest) (
    lines_after-line "event: error" _ (
      refl,
      (refl, (refl, (refl, (refl, (refl, (refl, (refl, (refl, (refl, (refl, (refl, tt))))))))))),
    )
    ∙ ap (λ ls. "event: error" ∷ ls) (sse_data-lines t rest h))
