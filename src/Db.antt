-- ===== src/Db.antt =====
-- app/db/models.py: the tables, and what SQLAlchemy's sessions do with them as the handlers use them.
-- A time is a number of seconds in UTC. A session may fail at any of its awaits: `Faults` says where.
use ai_serving_backend.Prelude.{
  ℕ, String, Bool, false, Option, none, some, List, [], ◌∷◌, str_eq, Result, ok, raise,
  if◌then◌else◌,
}

pub record AuditLog : Type 0 where
  pub id : String
  pub request_id : String
  pub ts : ℕ
  pub principal_hash : Option String
  pub org_id : Option String
  pub api_key_id : Option String
  pub provider : Option String
  pub model : Option String
  pub status_code : ℕ
  pub error_type : Option String
  pub prompt_tokens : ℕ
  pub completion_tokens : ℕ
  pub total_tokens : ℕ
  -- in units of 10^-8 dollars; what the column, NUMERIC(12, 6), rounds off is left to the driver
  pub cost_usd : ℕ
  pub latency_ms : ℕ
  pub stream : Bool

pub record PolicyEventRow : Type 0 where
  pub request_id : String
  pub principal_hash : Option String
  pub org_id : Option String
  pub api_key_id : Option String
  pub event_type : String
  pub action : String
  pub rule_id : String
  pub count : ℕ
  pub severity : String
  pub stream : Bool

pub record AuditMessage : Type 0 where
  pub request_id : String
  pub seq : ℕ
  pub role : String
  pub content : String

pub record Organization : Type 0 where
  pub id : String
  pub name : String
  pub created_at : ℕ

pub record ApiKey : Type 0 where
  pub id : String
  pub org_id : String
  pub prefix : String
  pub key_hash : String
  pub name : String
  pub scopes : String
  pub created_at : ℕ
  pub last_used_at : Option ℕ
  pub revoked_at : Option ℕ

pub record Database : Type 0 where
  pub audit_logs : List AuditLog
  pub policy_events : List PolicyEventRow
  pub audit_messages : List AuditMessage
  pub organizations : List Organization
  pub api_keys : List ApiKey

abbrev pub empty : Database
empty = record {
  audit_logs = [];
  policy_events = [];
  audit_messages = [];
  organizations = [];
  api_keys = [];
}

pub record Faults : Type 0 where
  pub query_fails : Bool
  pub commit_fails : Bool

abbrev pub no_faults : Faults
no_faults = record { query_fails = false; commit_fails = false }

-- a column with a primary key or a unique constraint: the row that has the value
module _ {A : Type 0} where
  unfoldable pub find_by : (A → String) → String → List A → Option A
  find_by column value [] = none
  find_by column value (row ∷ rows) =
      if str_eq (column row) value then some row else find_by column value rows

  -- an UPDATE of the row that has the value
  unfoldable pub update_by : (A → String) → String → (A → A) → List A → List A
  update_by column value change [] = []
  update_by column value change (row ∷ rows) =
      if str_eq (column row) value
      then change row ∷ rows
      else row ∷ update_by column value change rows

  -- result.scalar_one_or_none(): it raises when there are several rows
  unfoldable pub scalar_one_or_none : List A → Result Unit (Option A)
  scalar_one_or_none [] = ok none
  scalar_one_or_none (x ∷ []) = ok (some x)
  scalar_one_or_none (x ∷ y ∷ rest) = raise tt
