-- ===== src/Auth/Tests.antt =====
-- A key of the environment that is let in, and a wrong scheme that is not.
use ai_serving_backend.Prelude.{String, ◌≡◌, refl, none, some, [], ◌∷◌, raise}
use ai_serving_backend.Request.{fresh}
use ai_serving_backend.Errors.{api, api_error, authentication}
use ai_serving_backend.Db.{no_faults}
use ai_serving_backend.Auth.{ApiKeyPrincipal, Credentials}
use ai_serving_backend.Auth.Require.{Authority, World, require_api_key}
use ai_serving_backend.Auth.Grounds.{Grounds}
use ai_serving_backend.Auth.Outcomes.{Refusal, require_api_key-raises}

abbrev hash : String → String
hash t = t

abbrev keys_only : Authority
keys_only = record {
  settings = record {
    auth_mode = "api_key" ∷ [];
    jwt_org_claim = "org_id";
    jwt_scope_claim = "groups";
    jwt_group_scope_map = [];
    api_key_last_used_min_interval_seconds = 60;
  };
  key_hashes = "k1" ∷ "k2" ∷ [];
  validator = none;
}

abbrev start : World
start = record { state = fresh; sessions = none }

abbrev bearer : Credentials
bearer = record { scheme = "Bearer"; credentials = "k2" }

abbrev basic : Credentials
basic = record { scheme = "Basic"; credentials = "k2" }

abbrev owner : ApiKeyPrincipal
owner = record {
  api_key_hash = "k2";
  api_key_id = none;
  org_id = none;
  scopes = "chat" ∷ "admin" ∷ "super_admin" ∷ [];
}

refused :
    (require_api_key hash keys_only 7 no_faults (some basic) start).0
    ≡ raise (api (api_error authentication "Missing bearer token" []))
unfolding require_api_key
refused = refl

require_api_key-raises_example :
    Refusal hash keys_only 7 no_faults (api (api_error authentication "Missing bearer token" []))
    × ((require_api_key hash keys_only 7 no_faults (some basic) start).1 ≡ start)
require_api_key-raises_example =
    require_api_key-raises hash keys_only 7 no_faults (some basic) start _ refused
