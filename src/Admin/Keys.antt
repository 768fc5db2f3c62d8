-- ===== src/Admin/Keys.antt =====
-- app/routers/admin.py: organizations and keys. `token` is the new key's random text, `sha256` its
-- hash, `id` and `now` what the row gets by default.
pub mod Listing
pub mod Grants
pub mod Scopes
use ai_serving_backend.Prelude.{
  ℕ, zero, suc, ◌+◌, String, Bool, true, false, not, ◌&&◌, ◌||◌, Option, none, some, List, [], ◌∷◌,
  ◌++◌, map, filter, is_empty, is_some, str_eq, ltb, leb, if◌then◌else◌, Result, ok, raise, ◌>>=◌,
}
use ai_serving_backend.Prelude.Text.{csv_items, join, str_take, strip, str_length}
use ai_serving_backend.Errors.{Exception}
use ai_serving_backend.Auth.{ApiKeyPrincipal, is_super_admin, contains}
use ai_serving_backend.Db.{Database, Organization, ApiKey, find_by, update_by}
use ai_serving_backend.Admin.{
  http_error, require_sessionmaker, require_super_admin, principal_org_id,
}

-- the state of a handler that writes: its answer and the database
abbrev pub Written : Type 0 → Type 0
Written A = Result Exception A × Option Database

-- a request body that pydantic refuses
abbrev invalid : {A : Type 0} → String → Result String A
invalid message = raise message

-- strip_name, after the bounds on the length
unfoldable pub strip_name : String → String → Result String String
unfolding strip
strip_name blank value =
    if ltb (str_length value) 1 || ltb 120 (str_length value)
    then invalid "length"
    else if str_eq (strip value) ""
    then invalid blank
    else ok (strip value)

-- the loop of normalize_scopes over the parts of one item
add_scopes : List String → List String → List String
unfolding contains
add_scopes scopes [] = scopes
add_scopes scopes (s ∷ parts) =
    add_scopes (if contains s scopes then scopes else scopes ++ s ∷ []) parts

-- the loop over the items; `csv_items` are the stripped parts that are not empty
unfoldable pub collect_scopes : List String → List String → List String
unfolding add_scopes csv_items
collect_scopes scopes [] = scopes
collect_scopes scopes (item ∷ items) = collect_scopes (add_scopes scopes (csv_items item)) items

unfoldable pub normalize_scopes : List String → Result String (List String)
unfolding collect_scopes
normalize_scopes items =
    let scopes = collect_scopes [] items in
    if is_empty scopes then invalid "At least one scope is required" else ok scopes

-- create_organization
unfoldable pub create_organization :
    String → ApiKeyPrincipal → String → ℕ → Option Database → Written Organization
unfolding require_super_admin require_sessionmaker find_by
create_organization name p id now database = elim (require_super_admin p) [
  | raise e ↦ (raise e, database)
  | ok _ ↦ elim (require_sessionmaker database) [
    | raise e ↦ (raise e, database)
    | ok db ↦
        let org : Organization = record { id = id; name = name; created_at = now } in
        if is_some (find_by (λ o. o.name) name db.organizations)
        then (http_error 409 "Organization already exists", some db)
        else (ok org, some (record db { organizations = db.organizations ++ org ∷ [] }))
  ]
]

-- the body of a request for a key, validated
pub record ApiKeyCreateRequest : Type 0 where
  pub name : String
  pub scopes : List String
  pub org_id : String

-- [scope for scope in scopes if scope != "super_admin"]
abbrev pub without_super : List String → List String
without_super scopes = filter (λ s. not (str_eq s "super_admin")) scopes

-- the organization and the scopes that the new key gets
unfoldable pub granted :
    ApiKeyPrincipal → ApiKeyCreateRequest → Result Exception (String × List String)
unfolding is_super_admin principal_org_id
granted p body =
    let kept = without_super body.scopes in
    if is_super_admin p
    then ok (body.org_id, body.scopes)
    else (principal_org_id p >>= λ org_id.
        if not (str_eq body.org_id org_id)
        then http_error 403 "Cannot create API key for another org"
        else if is_empty kept
        then http_error 400 "At least one non-super_admin scope is required"
        else ok (org_id, kept))

insert_key : ApiKey → Database → Written ApiKey
unfolding find_by
insert_key k db =
    if not (is_some (find_by (λ o. o.id) k.org_id db.organizations))
    then (http_error 404 "Organization not found", some db)
    else if is_some (find_by (λ j. j.key_hash) k.key_hash db.api_keys)
    then (http_error 409 "API key already exists", some db)
    else (ok k, some (record db { api_keys = db.api_keys ++ k ∷ [] }))

abbrev new_key : (String → String) → String → String → ℕ → String → String × List String → ApiKey
new_key sha256 token id now name (org_id, scopes) = record {
  id = id;
  org_id = org_id;
  prefix = str_take 12 token;
  key_hash = sha256 token;
  name = name;
  scopes = join "," scopes;
  created_at = now;
  last_used_at = none;
  revoked_at = none;
}

-- create_api_key; the answer is the row, and beside it the list of the scopes and the token
unfoldable pub create_api_key :
    (String → String)
    → String
    → String
    → ℕ
    → ApiKeyCreateRequest
    → ApiKeyPrincipal
    → Option Database
    → Written ApiKey
unfolding require_sessionmaker granted insert_key join str_take
create_api_key sha256 token id now body p database = elim (require_sessionmaker database) [
  | raise e ↦ (raise e, database)
  | ok db ↦ elim (granted p body) [
    | raise e ↦ (raise e, database)
    | ok grant ↦ insert_key (new_key sha256 token id now body.name grant) db
  ]
]

abbrev pub revoked : ℕ → ApiKey → ApiKey
revoked now k = record k { revoked_at = some now }

-- may the principal revoke the key?
unfoldable pub may_revoke : ApiKeyPrincipal → ApiKey → Result Exception Unit
unfolding is_super_admin principal_org_id
may_revoke p k =
    if is_super_admin p
    then ok tt
    else (principal_org_id p >>= λ org_id.
        if str_eq k.org_id org_id then ok tt else http_error 404 "API key not found")

revoke_row : String → ApiKeyPrincipal → ℕ → Option ApiKey → Database → Written ℕ
unfolding may_revoke update_by
revoke_row key_id p now none db = (http_error 404 "API key not found", some db)
revoke_row key_id p now (some k) db = elim (may_revoke p k) [
  | raise e ↦ (raise e, some db)
  | ok _ ↦ (
    ok now,
    some (record db { api_keys = update_by (λ j. j.id) key_id (revoked now) db.api_keys }),
  )
]

-- revoke_api_key
unfoldable pub revoke_api_key : String → ApiKeyPrincipal → ℕ → Option Database → Written ℕ
unfolding require_sessionmaker find_by revoke_row
revoke_api_key key_id p now database = elim (require_sessionmaker database) [
  | raise e ↦ (raise e, database)
  | ok db ↦ revoke_row key_id p now (find_by (λ k. k.id) key_id db.api_keys) db
]

-- ORDER BY created_at DESC
insert_by_created : ApiKey → List ApiKey → List ApiKey
insert_by_created k [] = k ∷ []
insert_by_created k (j ∷ ks) =
    let later = insert_by_created k ks in
    if leb j.created_at k.created_at then k ∷ j ∷ ks else j ∷ later

unfoldable pub sort_by_created : List ApiKey → List ApiKey
unfolding insert_by_created
sort_by_created [] = []
sort_by_created (k ∷ ks) = insert_by_created k (sort_by_created ks)

-- the organization whose keys are listed
unfoldable pub listed_org : Option String → ApiKeyPrincipal → Result Exception (Option String)
unfolding is_super_admin principal_org_id
listed_org org_id p =
    if is_super_admin p then ok org_id else (principal_org_id p >>= λ own. ok (some own))

abbrev shown : Option String → Bool → ApiKey → Bool
shown none include_revoked k = include_revoked || not (is_some k.revoked_at)
shown (some org_id) include_revoked k =
    str_eq k.org_id org_id && (include_revoked || not (is_some k.revoked_at))

-- list_api_keys; an item has the fields of its row, less the hash
unfoldable pub list_api_keys :
    Option String → Bool → ApiKeyPrincipal → Option Database → Result Exception (List ApiKey)
unfolding require_sessionmaker listed_org sort_by_created
list_api_keys org_id include_revoked p database = require_sessionmaker database >>= λ db.
    listed_org org_id p >>= λ effective.
    ok (sort_by_created (filter (shown effective include_revoked) db.api_keys))
