-- ===== src/Audit/Tests.antt =====
-- A request whose insert fails, and a task that runs.
use ai_serving_backend.Prelude.{
  suc, ◌+◌, ◌≡◌, refl, true, false, none, some, [], ◌∷◌, length, arith,
}
use ai_serving_backend.Request.{NormalizedUsage, fresh}
use ai_serving_backend.Schemas.{NormalizedStreamChunk}
use ai_serving_backend.Db.{empty}
use ai_serving_backend.Audit.{AuditSettings, audit_path}
use ai_serving_backend.Audit.Tasks.{
  Store, Fate, insert_of, insert_audit_log, finalize_request, run_tasks,
}
use ai_serving_backend.Audit.Writing.{records, written, finalize_request-written, run_tasks-drains}
use ai_serving_backend.Audit.Streams.{IsAuditedAs, audited_fields, stream_body-IsAuditedAs}
use ai_serving_backend.Chat.Stream.{yields, stops, Arrival, Generator, stream_body}
use ai_serving_backend.Chat.Stream.Endings.{completed, hears, ends, last_usage}

abbrev settings : AuditSettings
settings = record { audit_enabled = true; audit_sync = true; audit_store_messages = false }

abbrev nothing : Store
nothing = record { db = empty; fallback = []; tasks = [] }

abbrev to_file : Fate
to_file = record { cancelled = false; commits = false; file_writes = true; id = "1"; ts = 9 }

abbrev waiting : Store
waiting = record nothing { tasks = insert_of settings fresh "u" 200 3 ∷ [] }

-- the default
abbrev later : AuditSettings
later = record settings { audit_sync = false }

finalize_request-written_example :
    let ended = finalize_request later true audit_path fresh "u" 200 3 to_file waiting in
    let drained = run_tasks (to_file ∷ to_file ∷ []) ended in
    (written ended ≡ 0) × (length drained.tasks ≡ 0) × (written drained ≡ suc (written waiting + 1))
finalize_request-written_example =
    finalize_request-written later fresh "u" 200 3 to_file (to_file ∷ to_file ∷ []) waiting refl
      (refl, refl) ((refl, refl), ((refl, refl), tt)) (omega arith)

-- A cancelled insert leaves neither a row nor a line, although both could be written.
cancelled_insert_lost :
    finalize_request settings true audit_path fresh "u" 200 3
      (record { cancelled = true; commits = true; file_writes = true; id = "1"; ts = 9 })
      nothing
    ≡ nothing
unfolding finalize_request insert_audit_log
cancelled_insert_lost = refl

run_tasks-drains_example :
    let after = run_tasks (to_file ∷ to_file ∷ []) waiting in
    (length after.tasks ≡ 0)
    × (length after.db.audit_logs + length after.fallback ≡ records waiting)
run_tasks-drains_example =
    run_tasks-drains (to_file ∷ to_file ∷ []) waiting ((refl, refl), ((refl, refl), tt))
      (omega arith)

abbrev generator : Generator
generator = record { model = "m"; fallback_id = "f"; deadline = 7 }

-- a usage whose total is not told
abbrev usage : NormalizedUsage
usage = record { prompt_tokens = 2; completion_tokens = 3; total_tokens = 0 }

abbrev last_chunk : NormalizedStreamChunk
last_chunk = record {
  id = none;
  model = none;
  role = none;
  delta = "";
  finish_reason = none;
  usage = some usage;
}

-- one chunk at 5, and the end at 6; the deadline is at 7
abbrev brings : Arrival
brings = record { pause = 0; wait = 1; outcome = yields last_chunk }

abbrev stop : Arrival
stop = record { pause = 0; wait = 1; outcome = stops }

stream_body-IsAuditedAs_example :
    IsAuditedAs completed
      (some usage)
      (audited_fields (stream_body generator none (brings ∷ stop ∷ []) 4 none fresh).1 "u" 3)
unfolding last_usage
stream_body-IsAuditedAs_example =
    stream_body-IsAuditedAs generator none 4 (brings ∷ stop ∷ []) (last_chunk ∷ []) completed fresh
      "u" 3
      (hears 4 brings (stop ∷ []) last_chunk [] completed (omega arith) refl
        (ends 5 stop [] (omega arith) refl))
      refl refl refl
