-- ===== src/Chat/Stream/Endings.antt =====
-- What a client hears of a stream, and what it should be sent at the end, apart from the code.
use Prim.Native.String
use ai_serving_backend.Prelude.{
  String, ℕ, ◌+◌, ◌≤◌, ◌<◌, ◌≡◌, Option, none, some, List, [], ◌∷◌, false,
}
use ai_serving_backend.Request.{RequestState, NormalizedUsage}
use ai_serving_backend.Schemas.{NormalizedStreamChunk}
use ai_serving_backend.Errors.{Exception, api, http, validation, other, ErrorBody}
use ai_serving_backend.Chat.Stream.{
  yields, stops, fails, Arrival, Piece, done, event_error, data_error,
}

pub data Ending : Type 0 where
  completed late : Ending
  broken : Exception → Ending

-- From the time `now` on, the chunks that come before the deadline, and how it ends: the first
-- arrival that is late, or that is no chunk, ends it.
pub data Heard (deadline : ℕ)
    : ℕ → List Arrival → List NormalizedStreamChunk → Ending → Type 0 where
  silence : (now : ℕ) → Heard deadline now [] [] late
  tardy :
      (now : ℕ) (a : Arrival) (upstream : List Arrival)
      → deadline ≤ now + a.pause + a.wait
      → Heard deadline now (a ∷ upstream) [] late
  ends :
      (now : ℕ) (a : Arrival) (upstream : List Arrival)
      → now + a.pause + a.wait < deadline
      → a.outcome ≡ stops
      → Heard deadline now (a ∷ upstream) [] completed
  breaks :
      (now : ℕ) (a : Arrival) (upstream : List Arrival) (e : Exception)
      → now + a.pause + a.wait < deadline
      → a.outcome ≡ fails e
      → Heard deadline now (a ∷ upstream) [] (broken e)
  hears :
      (now : ℕ) (a : Arrival) (upstream : List Arrival) (c : NormalizedStreamChunk)
      (chunks : List NormalizedStreamChunk) (end : Ending)
      → now + a.pause + a.wait < deadline
      → a.outcome ≡ yields c
      → Heard deadline (now + a.pause + a.wait) upstream chunks end
      → Heard deadline now (a ∷ upstream) (c ∷ chunks) end

-- the later of two usages, where there is one
abbrev pub newest : Option NormalizedUsage → Option NormalizedUsage → Option NormalizedUsage
newest before none = before
newest before (some u) = some u

-- the usage of the last chunk that has one, or else the one before
unfoldable pub last_usage :
    Option NormalizedUsage → List NormalizedStreamChunk → Option NormalizedUsage
last_usage usage [] = usage
last_usage usage (c ∷ cs) = last_usage (newest usage c.usage) cs

-- the texts of the chunks, put together
abbrev pub all_text : List NormalizedStreamChunk → String
all_text [] = ""
all_text (c ∷ cs) = String.◌++◌ c.delta (all_text cs)

-- what an ending is for a client and for the audit: its status, the type of its error
abbrev pub ending_status : Ending → ℕ
ending_status completed = 200
ending_status late = 504
ending_status (broken (api e)) = e.status_code
ending_status (broken (http _ _ _)) = 500
ending_status (broken (validation _)) = 500
ending_status (broken other) = 500

abbrev pub ending_error : Ending → Option String
ending_error completed = none
ending_error late = some "stream_timeout"
ending_error (broken (api e)) = some e.error_type
ending_error (broken (http _ _ _)) = some "server_error"
ending_error (broken (validation _)) = some "server_error"
ending_error (broken other) = some "server_error"

abbrev internal_error : ErrorBody
internal_error = record {
  message = "Internal server error";
  type = "server_error";
  code = some "internal_error";
  param = false;
}

-- the last piece: the end marker, the timeout as an event of its own, or the error as data
abbrev pub last_piece : Ending → Piece
last_piece completed = done
last_piece late = event_error (record {
  message = "Stream timed out";
  type = "server_error";
  code = some "stream_timeout";
  param = false;
})
last_piece (broken (api e)) =
    data_error (record { message = e.message; type = e.error_type; code = e.code; param = false })
last_piece (broken (http _ _ _)) = data_error internal_error
last_piece (broken (validation _)) = data_error internal_error
last_piece (broken other) = data_error internal_error

-- the state that is left: with the usage of a completed stream, or with the failure's type and status
abbrev pub left_state : Option NormalizedUsage → Ending → RequestState → RequestState
left_state usage completed s = record s { token_usage = usage }
left_state usage late s = record s {
  error_type = ending_error late;
  audit_status_code = some (ending_status late);
}
left_state usage (broken e) s = record s {
  error_type = ending_error (broken e);
  audit_status_code = some (ending_status (broken e));
}

-- one last piece, and the state that is left
abbrev pub ending : Option NormalizedUsage → Ending → RequestState → List Piece × RequestState
ending usage end s = (last_piece end ∷ [], left_state usage end s)
