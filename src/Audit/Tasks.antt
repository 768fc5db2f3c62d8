-- ===== src/Audit/Tasks.antt =====
-- app/observability.py: what the end of a request writes, at once, as a task, or to the fallback file.
use ai_serving_backend.Prelude.{
  ℕ, String, Bool, true, false, not, ◌||◌, List, [], ◌∷◌, ◌++◌, str_eq, if◌then◌else◌,
}
use ai_serving_backend.Request.{RequestState}
use ai_serving_backend.Db.{PolicyEventRow, AuditMessage, Database}
use ai_serving_backend.Audit.{
  AuditSettings, audit_path, AuditFields, or_else, fields_of, policy_rows, message_rows, audit_row,
}

-- what one request adds
pub record Insert : Type 0 where
  pub fields : AuditFields
  pub policy_events : List PolicyEventRow
  pub audit_messages : List AuditMessage

-- The database, the lines of the fallback file, and the inserts that are scheduled as tasks.
pub record Store : Type 0 where
  pub db : Database
  pub fallback : List AuditFields
  pub tasks : List Insert

-- how an insert goes: whether it is cancelled before its commit is through, whether the commit
-- succeeds, whether the file can be written, and the id and time of the row
pub record Fate : Type 0 where
  pub cancelled : Bool
  pub commits : Bool
  pub file_writes : Bool
  pub id : String
  pub ts : ℕ

-- _write_audit_fallback
unfoldable pub write_audit_fallback : Bool → AuditFields → Store → Store
write_audit_fallback true f st = record st { fallback = st.fallback ++ f ∷ [] }
write_audit_fallback false f st = st

-- _insert_audit_log; one transaction. A CancelledError is no Exception: it passes the `except` clause,
-- and neither the database nor the file is written.
unfoldable pub insert_audit_log : Fate → Insert → Store → Store
unfolding write_audit_fallback audit_row
insert_audit_log fate i st =
    if fate.cancelled
    then st
    else if fate.commits
    then record st {
      db = record st.db {
        audit_logs = st.db.audit_logs ++ audit_row fate.id fate.ts i.fields ∷ [];
        policy_events = st.db.policy_events ++ i.policy_events;
        audit_messages = st.db.audit_messages ++ i.audit_messages;
      };
    }
    else write_audit_fallback fate.file_writes i.fields st

unfoldable pub insert_of : AuditSettings → RequestState → String → ℕ → ℕ → Insert
unfolding fields_of policy_rows message_rows
insert_of settings s uuid status_code latency_ms =
    let f = fields_of s uuid status_code latency_ms in
    record {
      fields = f;
      policy_events = policy_rows f s;
      audit_messages = message_rows settings f s;
    }

-- _schedule_audit_log; `initialized` says whether there is a sessionmaker
unfoldable pub schedule_audit_log :
    AuditSettings → Bool → String → RequestState → String → ℕ → ℕ → Fate → Store → Store
unfolding insert_of insert_audit_log
schedule_audit_log settings initialized path s uuid status_code latency_ms fate st =
    let i = insert_of settings s uuid status_code latency_ms in
    if not settings.audit_enabled || not (str_eq path audit_path)
    then st
    else if not initialized
    then st
    else if settings.audit_sync
    then insert_audit_log fate i st
    else record st { tasks = st.tasks ++ i ∷ [] }

-- a task runs, and is discarded
unfoldable pub run_task : Fate → Store → Store
unfolding insert_audit_log
run_task fate st = elim st.tasks [
  | [] ↦ st
  | i ∷ tasks ↦ insert_audit_log fate i (record st { tasks = tasks })
]

unfoldable pub run_tasks : List Fate → Store → Store
unfolding run_task
run_tasks [] st = st
run_tasks (fate ∷ fates) st = run_tasks fates (run_task fate st)

-- _finalize_request: the status that is audited
unfoldable pub finalize_request :
    AuditSettings → Bool → String → RequestState → String → ℕ → ℕ → Fate → Store → Store
unfolding schedule_audit_log
finalize_request settings initialized path s uuid status_code latency_ms fate st =
    schedule_audit_log settings initialized path s uuid (or_else s.audit_status_code status_code)
      latency_ms fate st

-- request_id_middleware: how a request ends. The application raises, or answers without a body to
-- iterate, or with one, of which the server takes some chunks before it ends or is closed.
pub data Ends : Type 0 where
  raises : Ends
  answers : ℕ → Ends
  -- a body that is iterated: its status, and whether the server iterates it at all
  iterates : ℕ → Bool → Ends

-- the middleware, with `finalize` as a function of the status code. A body that the server never
-- starts to iterate is never finalized.
unfoldable pub request_id_middleware : {S : Type 0} → (ℕ → S → S) → Ends → S → S
request_id_middleware finalize raises s = finalize 500 s
request_id_middleware finalize (answers status) s = finalize status s
request_id_middleware finalize (iterates status true) s = finalize status s
request_id_middleware finalize (iterates status false) s = s
