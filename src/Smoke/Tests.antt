-- ===== src/Smoke/Tests.antt =====
-- A stream of one chunk, as it is sent and as it is read; and a whole run of the script against an
-- application that answers.
use ai_serving_backend.Prelude.{
  String, ◌≡◌, refl, Bool, true, false, none, some, List, [], ◌∷◌, All, any, arith, ok, raise,
  Result, str_eq, is_empty, if◌then◌else◌,
}
use ai_serving_backend.Prelude.Int.{pos}
use ai_serving_backend.Prelude.Text.{strip}
use ai_serving_backend.Prelude.Text.Lines.{
  startswith, removeprefix, has_no_break-IsOneLine, is_line_break,
}
use ai_serving_backend.Request.{fresh}
use ai_serving_backend.Schemas.{NormalizedStreamChunk}
use ai_serving_backend.Db.{AuditLog}
use ai_serving_backend.Json.{Json, num, array, object, no_items, item, no_members, member}
use ai_serving_backend.Chat.Stream.{
  yields, stops, Arrival, Generator, stream_body, next_chunk_with_deadline,
}
use ai_serving_backend.Chat.Stream.Endings.{hears, ends, all_text}
use ai_serving_backend.Chat.Stream.Render.{JsonEncoders, dump_chunk, render}
use ai_serving_backend.Schemas.Responses.{chunk_from_normalized}
use ai_serving_backend.Smoke.Sse.{SseBody, read_line, read_payload, parse_sse_body}
use ai_serving_backend.Smoke.Sse.Roundtrip.{PieceReadable, IsReadable}
use ai_serving_backend.Smoke.EndToEnd.{chunk_has_usage, parse_sse_body-stream}
use ai_serving_backend.Smoke.Plans.{
  Args, KeySettings, ProviderChoice, SmokeSettings, build_plans, clamp_max_tokens,
}
use ai_serving_backend.Smoke.Answers.{Response, Service, Builtins, join_from}
use ai_serving_backend.Smoke.Run.{run_smoke, runnable}
use ai_serving_backend.Smoke.Exit.{AllPassed, run_smoke-passed}

abbrev chunk : NormalizedStreamChunk
chunk = record {
  id = some "c";
  model = some "m";
  role = none;
  delta = "hi";
  finish_reason = none;
  usage = some (record { prompt_tokens = 1; completion_tokens = 2; total_tokens = 3 });
}

abbrev arrivals : List Arrival
arrivals =
    record { pause = 0; wait = 1; outcome = yields chunk }
    ∷ record { pause = 0; wait = 1; outcome = stops }
    ∷ []

abbrev generator : Generator
generator = record { model = "m"; fallback_id = "f"; deadline = 30 }

abbrev chunk_json : Json
chunk_json = dump_chunk 7 (chunk_from_normalized chunk "f" "m")

abbrev json_text : String
json_text = "{\"id\":\"c\",\"choices\":[{\"index\":0,\"delta\":{\"content\":\"hi\"}}]}"

abbrev reads : String → Result String Json
reads t = if str_eq t json_text then ok chunk_json else raise "Expecting value"

abbrev encoders : JsonEncoders
encoders = record { dumps = λ v. "null"; model_dump_json = λ v. json_text }

chunk_json-IsReadable : IsReadable reads chunk_json json_text
unfolding strip is_line_break
chunk_json-IsReadable = record {
  loaded = refl;
  stripped = refl;
  one_line = has_no_break-IsOneLine json_text refl;
  not_done = refl;
}

pieces-readable :
    All (PieceReadable reads encoders 7) (stream_body generator none arrivals 5 none fresh).0
unfolding stream_body next_chunk_with_deadline
pieces-readable = (chunk_json-IsReadable, (tt, tt))

parse_sse_body-stream_example :
    (seen : SseBody) × (parse_sse_body reads
        (render encoders 7 (stream_body generator none arrivals 5 none fresh).0)
      ≡ ok seen)
    × (join_from 0 seen.chunks ≡ ok (all_text (chunk ∷ [])))
    × (seen.saw_done ≡ true)
    × (seen.saw_usage ≡ any chunk_has_usage (chunk ∷ []))
    × (seen.parse_errors ≡ [])
parse_sse_body-stream_example =
    parse_sse_body-stream reads encoders 7 generator none 5 arrivals (chunk ∷ []) fresh
      (hears 5 _ _ chunk [] _ (omega arith) refl (ends 6 _ [] (omega arith) refl)) pieces-readable

abbrev py : Builtins
py = record { loads = reads; int_of_text = λ t. ok 0; describe = λ content_type errors. "" }

abbrev audited : Bool → String → AuditLog
audited stream id = record {
  id = id;
  request_id = id;
  ts = 0;
  principal_hash = none;
  org_id = none;
  api_key_id = none;
  provider = some "openai";
  model = some "m";
  status_code = 200;
  error_type = none;
  prompt_tokens = 1;
  completion_tokens = 2;
  total_tokens = 3;
  cost_usd = 0;
  latency_ms = 1;
  stream = stream;
}

abbrev completion : Json
completion = object (
    member "choices"
      (array (
        item
          (object
            (member "message" (object (member "content" (Json.text "pong") no_members)) no_members))
          no_items))
      (member "usage" (object (member "total_tokens" (num 3) no_members)) no_members))

abbrev answer : Bool → Response
answer true = record {
  status_code = 200;
  body = render encoders 7 (stream_body generator none arrivals 5 none fresh).0;
  json = ok completion;
  request_id = some "r2";
  content_type = "text/event-stream; charset=utf-8";
}
answer false = record {
  status_code = 200;
  body = "";
  json = ok completion;
  request_id = some "r1";
  content_type = "application/json";
}

abbrev answers : Service
answers = record {
  App = List AuditLog;
  post =
      λ p rows. (ok (answer p.stream), audited p.stream (if p.stream then "r2" else "r1") ∷ rows);
  audit_logs = λ rows. rows;
}

abbrev args : Args
args = record {
  run = true;
  provider = ProviderChoice.openai;
  max_tokens = pos 16;
  openai_model = "m";
  anthropic_model = "n";
  prompt = "say pong";
}

abbrev keys : KeySettings
keys = record { openai_api_key = some "sk"; anthropic_api_key = none }

abbrev empty_app : SmokeSettings → List AuditLog
empty_app s = []

exits_0 : (run_smoke py (λ c. "0") answers args keys "db" empty_app).exit ≡ ok 0
unfolding run_smoke render stream_body next_chunk_with_deadline startswith removeprefix strip
    read_line read_payload chunk_from_normalized
exits_0 = refl

has_plan :
    ◌≡◌ {A = Bool}
      (is_empty (runnable (build_plans args keys (clamp_max_tokens args.max_tokens).0)))
      false
unfolding build_plans clamp_max_tokens
has_plan = refl

run_smoke-passed_example :
    AllPassed py
      (λ c. "0")
      answers
      (runnable (build_plans args keys (clamp_max_tokens args.max_tokens).0))
      "say pong"
      []
run_smoke-passed_example =
    run_smoke-passed py (λ c. "0") answers args keys "db" empty_app refl has_plan exits_0
