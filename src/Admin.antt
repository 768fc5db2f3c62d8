-- ===== src/Admin.antt =====
-- app/routers/admin.py: the handlers of the administration. Each runs for a principal that has the
-- scope `admin` (app/auth.py: `require_admin_principal`). The database is `none` when there is no
-- sessionmaker. The rows of a table stand in the order of their insertion; rows with equal sort keys keep
-- it.
pub mod Isolation
pub mod Totals
pub mod Keys
pub mod Replay
mod Tests
use Prim.Native.String
use ai_serving_backend.Prelude.{
  ℕ, zero, suc, ◌+◌, ◌-◌, ◌*◌, ◌/◌, ◌%◌, ◌^◌, String, Bool, true, false, not, ◌&&◌, ◌||◌, Option,
  none, some, List, [], ◌∷◌, ◌++◌, map, filter, take, drop, length, is_empty, str_eq, ltb, leb,
  ◌==◌, if◌then◌else◌, Result, ok, raise, ◌>>=◌,
}
use ai_serving_backend.Prelude.Text.{str_nat, csv_items, join, str_take}
use ai_serving_backend.Errors.{Exception, http, other}
use ai_serving_backend.Auth.{ApiKeyPrincipal, is_super_admin, contains}
use ai_serving_backend.Db.{AuditLog, Database, Organization, ApiKey, find_by, update_by}
use ai_serving_backend.Policy.{sorted}

abbrev pub http_error : {A : Type 0} → ℕ → String → Result Exception A
http_error status detail = raise (http status (some detail) [])

-- _require_sessionmaker
unfoldable pub require_sessionmaker : Option Database → Result Exception Database
require_sessionmaker none = http_error 503 "Database is not initialized"
require_sessionmaker (some db) = ok db

-- Decimal.quantize(Decimal("0.000001")), which rounds a half to the even neighbour; `cost` is in units of
-- 10^-8
unfoldable pub quantize : ℕ → ℕ
quantize cost =
    let q = cost / 100 in
    let r = cost % 100 in if ltb 50 r || (r == 50 && q % 2 == 1) then q + 1 else q

-- the last n digits, with zeros in front
digits : ℕ → ℕ → String
digits zero n = ""
digits (suc k) n = String.◌++◌ (digits k (n / 10)) (str_nat (n % 10))

-- _format_cost
unfoldable pub format_cost : ℕ → String
unfolding quantize digits
format_cost cost =
    let q = quantize cost in String.◌++◌ (str_nat (q / 10 ^ 6)) (String.◌++◌ "." (digits 6 q))

unfoldable pub require_super_admin : ApiKeyPrincipal → Result Exception Unit
unfolding is_super_admin
require_super_admin p =
    if is_super_admin p then ok tt else http_error 403 "super_admin scope is required"

unfoldable pub principal_org_id : ApiKeyPrincipal → Result Exception String
principal_org_id p = elim p.org_id [
  | none ↦ http_error 403 "Admin principal is not org-scoped"
  | some org_id ↦ ok org_id
]

-- the organization that a principal is confined to: none for a super admin
unfoldable pub scope_of : ApiKeyPrincipal → Result Exception (Option String)
unfolding is_super_admin principal_org_id
scope_of p =
    if is_super_admin p then ok none else (principal_org_id p >>= λ org_id. ok (some org_id))

-- column == value in SQL: NULL equals nothing
abbrev pub is_value : Option String → String → Bool
is_value none v = false
is_value (some x) v = str_eq x v

-- a condition that is there only with a value to compare
abbrev pub unless_none {ℓ} : {A : Type ℓ} → Option A → (A → Bool) → Bool
unless_none none p = true
unless_none (some a) p = p a

abbrev pub in_scope : Option String → AuditLog → Bool
in_scope scope row = unless_none scope (is_value row.org_id)

pub data GroupBy : Type 0 where
  key model org : GroupBy

abbrev coalesce : Option String → String → String
coalesce none s = s
coalesce (some s) _ = s

unfoldable pub group_key : GroupBy → AuditLog → String
group_key key row = coalesce row.api_key_id (coalesce row.principal_hash "unknown")
group_key model row = coalesce row.model "unknown"
group_key org row = coalesce row.org_id "unknown"

pub record UsageGroup : Type 0 where
  pub group_key : String
  pub total_tokens : ℕ
  pub total_prompt_tokens : ℕ
  pub total_completion_tokens : ℕ
  pub cost_usd : String
  pub request_count : ℕ
  pub error_count : ℕ

-- func.sum of a column
unfoldable pub sum : (AuditLog → ℕ) → List AuditLog → ℕ
sum column [] = 0
sum column (row ∷ rows) = column row + sum column rows

abbrev pub is_error : AuditLog → ℕ
is_error row = if leb 400 row.status_code then 1 else 0

unfoldable pub usage_group : GroupBy → List AuditLog → String → UsageGroup
unfolding group_key sum format_cost
usage_group by all k =
    let rows = filter (λ row. str_eq (group_key by row) k) all in
    record {
      group_key = k;
      total_tokens = sum (λ row. row.total_tokens) rows;
      total_prompt_tokens = sum (λ row. row.prompt_tokens) rows;
      total_completion_tokens = sum (λ row. row.completion_tokens) rows;
      cost_usd = format_cost (sum (λ row. row.cost_usd) rows);
      request_count = length rows;
      error_count = sum is_error rows;
    }

-- the keys, each once
distinct : List String → List String
unfolding contains
distinct [] = []
distinct (k ∷ ks) = let rest = distinct ks in if contains k rest then rest else k ∷ rest

unfoldable pub usage_groups : GroupBy → List AuditLog → List UsageGroup
unfolding usage_group distinct sorted
usage_groups by rows = map (usage_group by rows) (sorted (distinct (map (group_key by) rows)))

abbrev pub day : ℕ
day = 24 * 60 * 60

abbrev or_value {ℓ} : {A : Type ℓ} → Option A → A → A
or_value none a = a
or_value (some b) a = b

abbrev in_window : ℕ → ℕ → AuditLog → Bool
in_window since until row = leb since row.ts && leb row.ts until

-- get_usage: the groups, and the window that they are of
unfoldable pub get_usage :
    Option ℕ
    → Option ℕ
    → GroupBy
    → ApiKeyPrincipal
    → ℕ
    → Option Database
    → Result Exception (List UsageGroup × ℕ × ℕ)
unfolding require_sessionmaker scope_of usage_groups
get_usage since until by p now database =
    let since' = or_value since (now - day) in
    let until' = or_value until now in
    if ltb until' since'
    then http_error 400 "since must be before or equal to until"
    else (require_sessionmaker database >>= λ db. scope_of p >>= λ scope. ok (
      usage_groups by (filter (in_window since' until') (filter (in_scope scope) db.audit_logs)),
      since',
      until',
    ))

-- ORDER BY ts DESC
insert_by_ts : AuditLog → List AuditLog → List AuditLog
insert_by_ts row [] = row ∷ []
insert_by_ts row (r ∷ rows) =
    let later = insert_by_ts row rows in if leb r.ts row.ts then row ∷ r ∷ rows else r ∷ later

unfoldable pub sort_by_ts : List AuditLog → List AuditLog
unfolding insert_by_ts
sort_by_ts [] = []
sort_by_ts (row ∷ rows) = insert_by_ts row (sort_by_ts rows)

pub record AuditQuery : Type 0 where
  pub limit : ℕ
  pub offset : ℕ
  pub since : Option ℕ
  pub until : Option ℕ
  pub model : Option String
  pub api_key_id : Option String

abbrev matches : AuditQuery → AuditLog → Bool
matches q row =
    unless_none q.since (λ t. leb t row.ts)
    && unless_none q.until (λ t. leb row.ts t)
    && unless_none q.model (is_value row.model)
    && unless_none q.api_key_id (is_value row.api_key_id)

-- a scoped principal asks by key: the key is of its organization
unfoldable pub check_key : Option String → Option String → List ApiKey → Result Exception Unit
unfolding find_by
check_key none scope keys = ok tt
check_key (some key_id) none keys = ok tt
check_key (some key_id) (some org_id) keys = elim (find_by (λ k. k.id) key_id keys) [
  | none ↦ http_error 404 "API key not found"
  | some k ↦ if str_eq k.org_id org_id then ok tt else http_error 404 "API key not found"
]

-- the rows of a page, and the offset of the next
unfoldable pub page : ℕ → ℕ → List AuditLog → List AuditLog × Option ℕ
page limit offset found =
    let rows = take (limit + 1) (drop offset found) in
    (take limit rows, if ltb limit (length rows) then some (offset + limit) else none)

-- list_audit_logs; an item has the fields of its row
unfoldable pub list_audit_logs :
    AuditQuery → ApiKeyPrincipal → Option Database → Result Exception (List AuditLog × Option ℕ)
unfolding require_sessionmaker scope_of check_key page sort_by_ts
list_audit_logs q p database = require_sessionmaker database >>= λ db. scope_of p >>= λ scope.
    check_key q.api_key_id scope db.api_keys >>= λ _. ok (
      page q.limit q.offset
        (sort_by_ts (filter (matches q) (filter (in_scope scope) db.audit_logs))))
