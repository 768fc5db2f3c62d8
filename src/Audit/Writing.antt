-- ===== src/Audit/Writing.antt =====
-- app/observability.py: where the audit record of a request goes.
use ai_serving_backend.Prelude.{
  ℕ, suc, ◌+◌, ◌≤◌, String, ◌≡◌, refl, ap, ◌∙◌, true, false, ◌||◌, if◌then◌else◌, List, [], ◌∷◌,
  arith, length, length-append, All,
}
use ai_serving_backend.Request.{RequestState}
use ai_serving_backend.Audit.{AuditSettings, audit_path, or_else, audit_row}
use ai_serving_backend.Audit.Tasks.{
  Insert, Store, Fate, insert_audit_log, write_audit_fallback, schedule_audit_log, insert_of,
  run_task, run_tasks, finalize_request,
}

-- The audit records in a store: rows, lines of the fallback file, and inserts that wait.
abbrev pub records : Store → ℕ
records st = length st.db.audit_logs + length st.fallback + length st.tasks

-- The records that are written: rows, and lines of the fallback file.
abbrev pub written : Store → ℕ
written st = length st.db.audit_logs + length st.fallback

-- the insert is not cancelled, and the fallback file can be written if the commit fails
abbrev pub IsKept : Fate → Type 0
IsKept fate = (fate.cancelled ≡ false) × ((fate.commits || fate.file_writes) ≡ true)

insert_audit_log-records :
    (fate : Fate) (i : Insert) (st : Store)
    → IsKept fate
    → records (insert_audit_log fate i st) ≡ suc (records st)
unfolding insert_audit_log write_audit_fallback
insert_audit_log-records fate i st k = ground (
  arith,
  length-append st.db.audit_logs (audit_row fate.id fate.ts i.fields ∷ []),
  length-append st.fallback (i.fields ∷ []),
)

run_task-records :
    (fate : Fate) (st : Store) → IsKept fate → records (run_task fate st) ≡ records st
unfolding run_task
run_task-records fate st k = go st.tasks refl
  where
    go : (ts : List Insert) → st.tasks ≡ ts → records (run_task fate st) ≡ records st
    go [] e = rw (run_task, e) (omega (arith, ap length e))
    go (i ∷ tasks) e =
        rw (run_task, e)
          (omega
            (arith, ap length e, insert_audit_log-records fate i (record st { tasks = tasks }) k))

-- The tasks that insert later keep the number of records: each moves its record to the database, or to
-- the fallback file.
pub run_tasks-records :
    (fates : List Fate) (st : Store) → All IsKept fates → records (run_tasks fates st) ≡ records st
unfolding run_tasks
run_tasks-records [] st k = refl
run_tasks-records (fate ∷ fates) st k =
    run_tasks-records fates (run_task fate st) k.1 ∙ run_task-records fate st k.0

tasks-insert_audit_log :
    (fate : Fate) (i : Insert) (st : Store) → (insert_audit_log fate i st).tasks ≡ st.tasks
unfolding insert_audit_log write_audit_fallback
tasks-insert_audit_log fate i st = ground arith

tasks-run_task :
    (fate : Fate) (st : Store) (n : ℕ)
    → length st.tasks ≤ suc n
    → length (run_task fate st).tasks ≤ n
unfolding run_task
tasks-run_task fate st n h = go st.tasks refl
  where
    go : (ts : List Insert) → st.tasks ≡ ts → length (run_task fate st).tasks ≤ n
    go [] e = rw (run_task, e) (omega (arith, ap length e))
    go (i ∷ tasks) e =
        rw (run_task, e)
          (omega (
            arith,
            ap length e,
            ap length (tasks-insert_audit_log fate i (record st { tasks = tasks })),
            h,
          ))

run_tasks-none_left :
    (fates : List Fate) (st : Store)
    → length st.tasks ≤ length fates
    → length (run_tasks fates st).tasks ≡ 0
unfolding run_tasks
run_tasks-none_left [] st h = omega (arith, h)
run_tasks-none_left (fate ∷ fates) st h =
    run_tasks-none_left fates (run_task fate st) (tasks-run_task fate st (length fates) h)

-- When every waiting task is awaited, as the shutdown does, none is left, and each record that there
-- was is a row of the database or a line of the fallback file, if no task is cancelled, and each can
-- commit or else write the file.
pub run_tasks-drains :
    (fates : List Fate) (st : Store)
    → All IsKept fates
    → length st.tasks ≤ length fates
    → let after = run_tasks fates st in
      (length after.tasks ≡ 0) × (length after.db.audit_logs + length after.fallback ≡ records st)
run_tasks-drains fates st k h = (
  run_tasks-none_left fates st h,
  omega (arith, run_tasks-none_left fates st h, run_tasks-records fates st k),
)

finalize_request-records :
    (settings : AuditSettings) (s : RequestState) (uuid : String) (status_code latency_ms : ℕ)
    (fate : Fate) (st : Store)
    → settings.audit_enabled ≡ true
    → IsKept fate
    → let after = finalize_request settings true audit_path s uuid status_code latency_ms fate st in
      (written after ≡ written st + (if settings.audit_sync then 1 else 0))
      × (length after.tasks ≡ length st.tasks + (if settings.audit_sync then 0 else 1))
unfolding finalize_request schedule_audit_log
finalize_request-records settings s uuid status_code latency_ms fate st on k =
    let i = insert_of settings s uuid (or_else s.audit_status_code status_code) latency_ms in
    ground (
      arith,
      insert_audit_log-records fate i st k,
      ap length (tasks-insert_audit_log fate i st),
      length-append st.tasks (i ∷ []),
    )

-- When auditing is on and the database is there, the end of a chat request is recorded once. If the
-- inserts are not cancelled, and each can be committed or else the fallback file written: with
-- audit_sync, one row or line more is written when the request ends; without it, nothing is written
-- then, and once all tasks that wait are awaited, none is left. Then there is one row or line for the
-- request, one for each task that waited before, and those that there were.
pub finalize_request-written :
    (settings : AuditSettings) (s : RequestState) (uuid : String) (status_code latency_ms : ℕ)
    (fate : Fate) (fates : List Fate) (st : Store)
    → settings.audit_enabled ≡ true
    → IsKept fate
    → All IsKept fates
    → suc (length st.tasks) ≤ length fates
    → let ended = finalize_request settings true audit_path s uuid status_code latency_ms fate st in
      let drained = run_tasks fates ended in
      (written ended ≡ written st + (if settings.audit_sync then 1 else 0))
      × (length drained.tasks ≡ 0)
      × (written drained ≡ suc (written st + length st.tasks))
finalize_request-written settings s uuid status_code latency_ms fate fates st on k ks enough =
    let ended = finalize_request settings true audit_path s uuid status_code latency_ms fate st in
    let now = finalize_request-records settings s uuid status_code latency_ms fate st on k in
    let waiting : length ended.tasks ≤ length fates = ground (arith, now, enough) in
    let drained = run_tasks-drains fates ended ks waiting in
    (now.0, drained.0, ground (arith, now, drained))
