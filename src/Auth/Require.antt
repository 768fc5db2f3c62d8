-- ===== src/Auth/Require.antt =====
-- app/auth.py: JWT principals, and the dependencies that let a request in.
use Prim.Native.String
use ai_serving_backend.Prelude.{
  ℕ, String, not, ◌||◌, Option, none, some, List, [], ◌∷◌, is_empty, Result, ok, raise,
  if◌then◌else◌,
}
use ai_serving_backend.Prelude.Text.{lower_is}
use ai_serving_backend.Prelude.Dict.{Dict}
use ai_serving_backend.Request.{RequestState}
use ai_serving_backend.Errors.{Exception, other}
use ai_serving_backend.Db.{Organization, Faults, find_by}
use ai_serving_backend.Auth.{
  ApiKeyPrincipal, AuthSettings, ClaimValue, Credentials, Sessions, auth_error, claim, contains,
  groups_from_claim, map_groups_to_scopes, null, parse_jwt_group_scope_map, resolve, str, truthy,
}

-- what the JWT validator of the application is: none, or a function that returns the claims of a
-- token or raises
abbrev pub Validator : Type 0
Validator = Option (String → Option (Dict ClaimValue))

-- the organization of the `org` claim; a failing session is an exception that nobody catches here
unfoldable pub org_for : Faults → ClaimValue → Sessions → Result Exception Organization
org_for faults null sessions = auth_error "Invalid credentials"
org_for faults org_value none = auth_error "Invalid credentials"
org_for faults org_value (some db) =
    if faults.query_fails
    then raise other
    else elim (find_by (λ (o : Organization). o.id) (str org_value) db.organizations) [
      | none ↦ auth_error "Invalid credentials"
      | some org ↦ ok org
    ]

module _ (sha256 : String → String) where
  unfoldable pub principal_of_claims :
      AuthSettings
      → ClaimValue
      → ClaimValue
      → Dict ClaimValue
      → Organization
      → Result Exception ApiKeyPrincipal
  principal_of_claims settings iss sub claims org =
      let group_scope_map = parse_jwt_group_scope_map settings.jwt_group_scope_map [] in
      let split = contains settings.jwt_scope_claim ("scope" ∷ "scp" ∷ []) in
      let groups = groups_from_claim (claim settings.jwt_scope_claim claims) split in
      let scopes = map_groups_to_scopes groups group_scope_map in
      if is_empty scopes
      then auth_error "Invalid credentials"
      else ok (record {
        api_key_hash =
            sha256 (String.◌++◌ "jwt:" (String.◌++◌ (str iss) (String.◌++◌ ":" (str sub))));
        api_key_id = none;
        org_id = some org.id;
        scopes = scopes;
      })

  -- _build_jwt_principal
  unfoldable pub build_jwt_principal :
      AuthSettings → Faults → Dict ClaimValue → Sessions → Result Exception ApiKeyPrincipal
  unfolding org_for principal_of_claims contains
  build_jwt_principal settings faults claims sessions =
      let iss = claim "iss" claims in
      let sub = claim "sub" claims in
      if not (truthy iss) || not (truthy sub)
      then auth_error "Invalid credentials"
      else elim (org_for faults (claim settings.jwt_org_claim claims) sessions) [
        | raise e ↦ raise e
        | ok org ↦ principal_of_claims settings iss sub claims org
      ]

-- _set_request_principal
unfoldable pub set_request_principal : ApiKeyPrincipal → RequestState → RequestState
set_request_principal p s = record s {
  principal_hash = some p.api_key_hash;
  api_key_id = p.api_key_id;
  org_id = p.org_id;
  scopes = some p.scopes;
}

-- what the process has to authenticate with: its settings, the environment's key hashes and the
-- JWT validator
pub record Authority : Type 0 where
  pub settings : AuthSettings
  pub key_hashes : List String
  pub validator : Validator

-- the state of a call: the request's, and the database
pub record World : Type 0 where
  pub state : RequestState
  pub sessions : Sessions

module _ (sha256 : String → String) (auth : Authority) (now : ℕ) (faults : Faults) where
  unfoldable pub accept : ApiKeyPrincipal → World → Result Exception ApiKeyPrincipal × World
  accept p w = (ok p, record w { state = set_request_principal p w.state })

  -- the `if "jwt" in modes` block; both kinds of exception of the validation end it
  unfoldable pub try_jwt : String → World → Result Exception ApiKeyPrincipal × World
  unfolding accept contains
  try_jwt token w =
      let refused : Result Exception ApiKeyPrincipal × World =
        (auth_error "Invalid credentials", w) in
      if contains "jwt" auth.settings.auth_mode
      then elim auth.validator [
        | none ↦ refused
        | some validate ↦ elim (validate token) [
          | none ↦ refused
          | some claims ↦ elim (build_jwt_principal sha256 auth.settings faults claims w.sessions) [
            | raise e ↦ (raise e, w)
            | ok p ↦ accept p w
          ]
        ]
      ]
      else refused

  unfoldable pub by_token : String → World → Result Exception ApiKeyPrincipal × World
  unfolding accept try_jwt contains
  by_token token w =
      if contains "api_key" auth.settings.auth_mode
      then (let (found, sessions) =
            resolve sha256 auth.settings.api_key_last_used_min_interval_seconds auth.key_hashes now
              faults token w.sessions in
          elim found [
            | some p ↦ accept p (record w { sessions = sessions })
            | none ↦ try_jwt token (record w { sessions = sessions })
          ])
      else try_jwt token w

  -- require_api_key
  unfoldable pub require_api_key :
      Option Credentials → World → Result Exception ApiKeyPrincipal × World
  unfolding by_token lower_is
  require_api_key none w = (auth_error "Missing bearer token", w)
  require_api_key (some c) w =
      if lower_is c.scheme "bearer"
      then by_token c.credentials w
      else (auth_error "Missing bearer token", w)

-- require_scope(scope), and require_admin_principal at "admin"
unfoldable pub require_scope : String → ApiKeyPrincipal → Result Exception ApiKeyPrincipal
unfolding contains
require_scope scope p =
    if contains scope p.scopes then ok p else auth_error "Missing required scope"
