-- ===== src/Admin/Replay.antt =====
-- app/routers/admin.py: the replay of the fallback file. Outside the program, and so arguments:
-- `json.loads` (none is an error), `Decimal(str(value))`, `datetime.fromisoformat`, and SQLAlchemy's
-- making and inserting of a row.
pub mod Lines
use ai_serving_backend.Prelude.{
  ℕ, zero, suc, ◌+◌, String, Bool, true, false, not, ◌&&◌, Option, none, some, List, [], ◌∷◌, ◌++◌,
  filter, is_empty, str_eq, if◌then◌else◌, Result, ok, raise, ◌>>=◌,
}
use ai_serving_backend.Prelude.Text.{strip}
use ai_serving_backend.Prelude.Dict
use ai_serving_backend.Prelude.Dict.{Dict}
use ai_serving_backend.Errors.{Exception, other}
use ai_serving_backend.Auth.{ApiKeyPrincipal, contains}
use ai_serving_backend.Db.{AuditLog}
use ai_serving_backend.Admin.{http_error, require_super_admin}

-- an entry of a JSON object: a text, or any other value, given by its JSON text
pub data Json : Type 0 where
  text : String → Json
  plain : String → Json

-- what json.loads returns
pub data Loaded : Type 0 where
  object : Dict Json → Loaded
  not_object : Loaded

-- a value for a column: of the JSON line, or converted
pub data ColumnValue : Type 0 where
  json : Json → ColumnValue
  decimal : ℕ → ColumnValue
  datetime : ℕ → ColumnValue

pub record Libraries : Type 0 where
  pub loads : String → Option Loaded
  pub decimal_of : Json → Option ℕ
  -- fromisoformat of a text in which "Z" is replaced by "+00:00"
  pub fromisoformat : String → Option ℕ
  pub audit_log : Dict ColumnValue → Option AuditLog

abbrev pub audit_columns : List String
audit_columns =
    "id" ∷ "request_id" ∷ "ts" ∷ "principal_hash" ∷ "org_id" ∷ "api_key_id" ∷ "provider" ∷ "model"
    ∷ "status_code" ∷ "error_type" ∷ "prompt_tokens" ∷ "completion_tokens" ∷ "total_tokens"
    ∷ "cost_usd" ∷ "latency_ms" ∷ "stream" ∷ []

-- what happens outside while one line is replayed: the commit goes through or fails, or the request is
-- cancelled
pub data LineFate : Type 0 where
  commits breaks cancels : LineFate

-- what the loop has when it ends: the rows, the lines to quarantine (those that failed, then those
-- that were not reached), the two counts, and whether an exception leaves it
pub record Replayed : Type 0 where
  pub rows : List AuditLog
  pub quarantine : List String
  pub replayed : ℕ
  pub failed : ℕ
  pub cancelled : Bool

module _ (lib : Libraries) where
  convert : String → Json → Option ColumnValue
  convert key v =
      if str_eq key "cost_usd"
      then elim (lib.decimal_of v) [ none ↦ none | some d ↦ some (decimal d) ]
      else if str_eq key "ts"
      then elim v [
        | text t ↦ elim (lib.fromisoformat t) [ none ↦ none | some d ↦ some (datetime d) ]
        | plain t ↦ some (json (plain t))
      ]
      else some (json v)

  -- the columns of a line, converted; the other keys are dropped
  columns_of : Dict Json → Option (Dict ColumnValue)
  unfolding convert
  columns_of [] = some []
  columns_of ((key, v) ∷ entries) =
      let rest = columns_of entries in
      if contains key audit_columns
      then elim (convert key v) [
        | none ↦ none
        | some c ↦ elim rest [ none ↦ none | some cs ↦ some ((key, c) ∷ cs) ]
      ]
      else rest

  -- _audit_fields_from_json; `none` is an exception
  unfoldable pub audit_fields_from_json : Loaded → Option (Dict ColumnValue)
  unfolding columns_of
  audit_fields_from_json (object entries) = columns_of entries
  audit_fields_from_json not_object = none

  -- the `try` block of one line: the row that is inserted, or `none` when it raises
  replay_line : Bool → String → Option AuditLog
  unfolding audit_fields_from_json
  replay_line committed line = elim (lib.loads line) [
    | none ↦ none
    | some v ↦ elim (audit_fields_from_json v) [
      | none ↦ none
      | some fields ↦ elim (lib.audit_log fields) [
        | none ↦ none
        | some row ↦ if committed then some row else none
      ]
    ]
  ]

  -- not line.strip()
  abbrev pub is_blank : String → Bool
  is_blank line = str_eq (strip line) ""

  abbrev count_line : String → Option AuditLog → Replayed → Replayed
  count_line line none r = record r { quarantine = line ∷ r.quarantine; failed = r.failed + 1 }
  count_line line (some row) r = record r { rows = row ∷ r.rows; replayed = r.replayed + 1 }

  abbrev pub nonblank : List String → List String
  nonblank lines = filter (λ line. not (is_blank line)) lines

  -- nothing is replayed; `cancelled` says whether an exception leaves the `try` block
  abbrev nothing : List String → Bool → Replayed
  nothing remaining cancelled = record {
    rows = [];
    quarantine = remaining;
    replayed = 0;
    failed = 0;
    cancelled = cancelled;
  }

  -- what the line at the head becomes; a line that is being replayed when the request is cancelled
  -- stays with the remaining lines
  abbrev by_fate : LineFate → String → List String → Replayed → Replayed
  by_fate commits line lines rest = count_line line (replay_line true line) rest
  by_fate breaks line lines rest = count_line line (replay_line false line) rest
  by_fate cancels line lines rest = nothing (line ∷ nonblank lines) true

  -- the loop; a line for which no fate is given commits
  unfoldable pub replay_lines : List LineFate → List String → Replayed
  unfolding replay_line strip
  replay_lines fates [] = nothing [] false
  replay_lines [] (line ∷ lines) =
      let rest = replay_lines [] lines in
      if is_blank line then rest else by_fate commits line lines rest
  replay_lines (fate ∷ fates) (line ∷ lines) =
      let rest = replay_lines fates lines in
      let skipped = replay_lines (fate ∷ fates) lines in
      if is_blank line then skipped else by_fate fate line lines rest

  -- the `try` block, with what read_text gives; when it raises, `lines` is still the empty list, of which
  -- the `finally` clause takes the remaining lines
  unfoldable pub replay_text : List LineFate → Option (List String) → Replayed
  unfolding replay_lines
  replay_text fates none = nothing (nonblank []) true
  replay_text fates (some lines) = replay_lines fates lines

-- the fallback file (none: it is not there), the file `.failed`, and the audit rows
pub record Files : Type 0 where
  pub fallback : Option (List String)
  pub quarantined : List String
  pub rows : List AuditLog

-- os.replace of the file, and reading the snapshot as UTF-8
pub data SnapshotFate : Type 0 where
  gone busy unreadable taken : SnapshotFate

pub record AuditReplayResponse : Type 0 where
  pub replayed : ℕ
  pub failed : ℕ

abbrev nothing_replayed : Result Exception AuditReplayResponse
nothing_replayed = ok (record { replayed = 0; failed = 0 })

-- the `finally` clause, and the answer, unless an exception goes on
abbrev settle : Files → Replayed → Result Exception AuditReplayResponse × Files
settle f r = (
  if r.cancelled then raise other else ok (record { replayed = r.replayed; failed = r.failed }),
  record { fallback = none; quarantined = f.quarantined ++ r.quarantine; rows = f.rows ++ r.rows },
)

-- snapshot_path.read_text(encoding="utf-8").splitlines()
abbrev read_text : Bool → List String → Option (List String)
read_text true lines = some lines
read_text false lines = none

replay_snapshot :
    Libraries
    → List LineFate
    → SnapshotFate
    → List String
    → Files
    → Result Exception AuditReplayResponse × Files
unfolding replay_text
replay_snapshot lib fates gone lines f = (nothing_replayed, record f { fallback = none })
replay_snapshot lib fates busy lines f = (http_error 503 "Audit replay temporarily unavailable", f)
replay_snapshot lib fates unreadable lines f =
    settle f (replay_text lib fates (read_text false lines))
replay_snapshot lib fates taken lines f = settle f (replay_text lib fates (read_text true lines))

replay_file :
    Libraries
    → List LineFate
    → SnapshotFate
    → Option (List String)
    → Files
    → Result Exception AuditReplayResponse × Files
unfolding replay_snapshot
replay_file lib fates fate none f = (nothing_replayed, f)
replay_file lib fates fate (some lines) f = replay_snapshot lib fates fate lines f

-- replay_audit_fallback; `initialized` says whether there is a sessionmaker
unfoldable pub replay_audit_fallback :
    Libraries
    → List LineFate
    → SnapshotFate
    → Bool
    → ApiKeyPrincipal
    → Files
    → Result Exception AuditReplayResponse × Files
unfolding replay_file require_super_admin
replay_audit_fallback lib fates fate initialized p f = elim (require_super_admin p) [
  | raise e ↦ (raise e, f)
  | ok _ ↦
      let answer = replay_file lib fates fate f.fallback f in
      if initialized then answer else (http_error 503 "Database is not initialized", f)
]
