-- ===== src/Auth.antt =====
-- app/auth.py and app/auth_jwt.py: who a request is from. Outside the program, and so arguments of
-- the model: `sha256` (hashlib), and the validation of a token by PyJWT against the issuer's keys,
-- which returns the claims or raises.
pub mod Keys
pub mod Require
pub mod Grounds
pub mod Outcomes
mod Tests
use Prim.Native.String
use ai_serving_backend.Prelude.{
  ℕ, ◌+◌, String, Bool, true, false, not, ◌&&◌, ◌||◌, Option, none, some, List, [], ◌∷◌, map,
  filter, filter_map, any, is_empty, is_some, str_eq, leb, ◌==◌, Result, ok, raise, if◌then◌else◌,
}
use ai_serving_backend.Prelude.Text.{csv_items, split_words, lower_is, partition, strip}
use ai_serving_backend.Prelude.Dict
use ai_serving_backend.Prelude.Dict.{Dict}
use ai_serving_backend.Request.{RequestState}
use ai_serving_backend.Errors.{ApiError, Exception, api, other, authentication, api_error}
use ai_serving_backend.Db.{
  Database, ApiKey, Organization, Faults, find_by, update_by, scalar_one_or_none,
}

pub record ApiKeyPrincipal : Type 0 where
  pub api_key_hash : String
  pub api_key_id : Option String
  pub org_id : Option String
  -- a frozenset: only membership is read
  pub scopes : List String

-- x in xs
unfoldable pub contains : String → List String → Bool
contains x [] = false
contains x (y ∷ ys) = str_eq y x || contains x ys

unfoldable pub is_super_admin : ApiKeyPrincipal → Bool
unfolding contains
is_super_admin p = contains "super_admin" p.scopes

abbrev pub auth_error : {A : Type 0} → String → Result Exception A
auth_error message = raise (api (api_error authentication message []))

-- _parse_scopes
unfoldable pub parse_scopes : Option String → List String
unfolding csv_items
parse_scopes value =
    let text : String = elim value [ none ↦ "chat" | some v ↦ if str_eq v "" then "chat" else v ] in
    let scopes = csv_items text in if is_empty scopes then "chat" ∷ [] else scopes

-- config.parse_jwt_group_scope_map: the last entry of a group counts
unfoldable pub parse_jwt_group_scope_map : List String → Dict String → Dict String
unfolding partition strip Dict.put
parse_jwt_group_scope_map [] mapping = mapping
parse_jwt_group_scope_map (entry ∷ entries) mapping =
    let (before, found, after) = partition b'=' entry in
    let group = strip before in
    let scope = strip after in
    parse_jwt_group_scope_map entries (
      if found && not (str_eq group "") && not (str_eq scope "")
      then Dict.put group scope mapping
      else mapping)

unfoldable pub map_groups_to_scopes : List String → Dict String → List String
map_groups_to_scopes groups group_scope_map =
    filter_map (λ group. Dict.get group group_scope_map) groups

-- the JSON value of a claim: null, a text, a list (`none` is an item that is no text), or any other
-- value, given by its truth value and its `str`
pub data ClaimValue : Type 0 where
  null : ClaimValue
  text : String → ClaimValue
  items : List (Option String) → String → ClaimValue
  scalar : Bool → String → ClaimValue

-- claims.get(name): a missing claim and a null one are both None
abbrev pub claim : String → Dict ClaimValue → ClaimValue
claim name claims = Dict.get_or name null claims

abbrev pub truthy : ClaimValue → Bool
truthy null = false
truthy (text s) = not (str_eq s "")
truthy (items xs _) = not (is_empty xs)
truthy (scalar b _) = b

abbrev pub is_none : ClaimValue → Bool
is_none null = true
is_none _ = false

-- str(value)
abbrev pub str : ClaimValue → String
str null = "None"
str (text s) = s
str (items _ s) = s
str (scalar _ s) = s

unfoldable pub groups_from_claim : ClaimValue → Bool → List String
groups_from_claim null split_string = []
groups_from_claim (text s) split_string = if split_string then split_words s else s ∷ []
groups_from_claim (items xs _) split_string = filter_map (λ x. x) xs
groups_from_claim (scalar _ _) split_string = []

pub record AuthSettings : Type 0 where
  pub auth_mode : List String
  pub jwt_org_claim : String
  pub jwt_scope_claim : String
  pub jwt_group_scope_map : List String
  pub api_key_last_used_min_interval_seconds : ℕ

-- HTTPAuthorizationCredentials
pub record Credentials : Type 0 where
  pub scheme : String
  pub credentials : String

-- a never used key, no interval, or a use that is an interval old
unfoldable pub should_update_last_used : ℕ → Option ℕ → ℕ → Bool
should_update_last_used interval none now = true
should_update_last_used interval (some last_used_at) now =
    interval == 0 || leb (last_used_at + interval) now

-- `sessionmaker()` of a database that is not there is None
abbrev pub Sessions : Type 0
Sessions = Option Database

abbrev is_live : String → ApiKey → Bool
is_live token_hash k = str_eq k.key_hash token_hash && not (is_some k.revoked_at)

unfoldable pub principal_of_key : String → ApiKey → ApiKeyPrincipal
principal_of_key token_hash k = record {
  api_key_hash = token_hash;
  api_key_id = some k.id;
  org_id = some k.org_id;
  scopes = parse_scopes (some k.scopes);
}

touch : ℕ → ApiKey → ApiKey
touch now k = record k { last_used_at = some now }

abbrev commit_touch : ℕ → ApiKey → Database → Database
commit_touch now k db = record db { api_keys = update_by (λ r. r.id) k.id (touch now) db.api_keys }

-- the row that was found: the principal, or the exception of the commit, and the database
use_row :
    ℕ → ℕ → String → Bool → ApiKey → Database → Result Unit (Option ApiKeyPrincipal) × Database
unfolding principal_of_key touch
use_row interval now token_hash commit_fails k db =
    if should_update_last_used interval k.last_used_at now
    then (if commit_fails
        then (raise tt, db)
        else (ok (some (principal_of_key token_hash k)), commit_touch now k db))
    else (ok (some (principal_of_key token_hash k)), db)

use_rows :
    ℕ
    → ℕ
    → String
    → Bool
    → Result Unit (Option ApiKey)
    → Database
    → Result Unit (Option ApiKeyPrincipal) × Database
unfolding use_row
use_rows interval now token_hash commit_fails (ok none) db = (ok none, db)
use_rows interval now token_hash commit_fails (ok (some k)) db =
    use_row interval now token_hash commit_fails k db
use_rows interval now token_hash commit_fails (raise e) db = (raise e, db)

-- the `try` block of `resolve`
unfoldable pub lookup_key :
    ℕ → ℕ → Faults → String → Database → Result Unit (Option ApiKeyPrincipal) × Database
unfolding use_rows
lookup_key interval now faults token_hash db =
    if faults.query_fails
    then (raise tt, db)
    else use_rows interval now token_hash faults.commit_fails
        (scalar_one_or_none (filter (is_live token_hash) db.api_keys)) db

-- EnvAPIKeyStore.validate: every stored hash is compared, and the last that matches is kept
matched_hash : String → List String → Option String → Option String
matched_hash token_hash [] matched = matched
matched_hash token_hash (stored ∷ hashes) matched =
    matched_hash token_hash hashes (if str_eq token_hash stored then some stored else matched)

module _ (sha256 : String → String) where
  -- EnvAPIKeyStore.from_plaintext
  unfoldable pub from_plaintext : List String → List String
  from_plaintext api_keys = map sha256 (filter (λ key. not (str_eq key "")) api_keys)

  -- the principal of a key of the environment
  unfoldable pub env_validate : List String → String → Option ApiKeyPrincipal
  unfolding matched_hash
  env_validate key_hashes token = elim (matched_hash (sha256 token) key_hashes none) [
    | none ↦ none
    | some h ↦ some (record {
      api_key_hash = h;
      api_key_id = none;
      org_id = none;
      scopes = "chat" ∷ "admin" ∷ "super_admin" ∷ [];
    })
  ]

  or_env : List String → String → Result Unit (Option ApiKeyPrincipal) → Option ApiKeyPrincipal
  or_env key_hashes token (ok (some p)) = some p
  or_env key_hashes token (ok none) = env_validate key_hashes token
  or_env key_hashes token (raise _) = env_validate key_hashes token

  -- APIKeyResolver.resolve
  unfoldable pub resolve :
      ℕ → List String → ℕ → Faults → String → Sessions → Option ApiKeyPrincipal × Sessions
  unfolding or_env
  resolve interval key_hashes now faults token none = (env_validate key_hashes token, none)
  resolve interval key_hashes now faults token (some db) =
      let (found, db') = lookup_key interval now faults (sha256 token) db in
      (or_env key_hashes token found, some db')
