-- ===== src/Auth/Grounds.antt =====
-- app/auth.py: the grounds on which a token stands for a principal.
use mathlib.Core.List.{Memᴰ}
use ai_serving_backend.Prelude.{
  ℕ, String, ◌≡◌, ◌≢◌, inl, inr, refl, sym, subst, true, ◌∙◌, Option, none, some, List, [], ◌∷◌,
  arith, ap, eq_iff, str_eq, Bool-cases, Option-cases, Result, ok, raise,
}
use ai_serving_backend.Prelude.Dict.{Dict}
use ai_serving_backend.Db.{Database, ApiKey, Organization, Faults, find_by}
use ai_serving_backend.Auth.{
  ApiKeyPrincipal, ClaimValue, null, contains, claim, str, env_validate, resolve, lookup_key,
  or_env, principal_of_key,
}
use ai_serving_backend.Auth.Require.{
  Authority, World, org_for, build_jwt_principal, set_request_principal, by_token, try_jwt,
}
use ai_serving_backend.Auth.Keys.{IsLiveRow, lookup_key-found, lookup_key-keeps, env_validate_lem}

find_by-mem :
    {A : Type 0} (column : A → String) (value : String) (rows : List A) (row : A)
    → find_by column value rows ≡ some row
    → Memᴰ row rows × (column row ≡ value)
unfolding find_by
find_by-mem column value [] row e = cc
find_by-mem column value (x ∷ rows) row e = elim (Bool-cases (str_eq (column x) value)) [
  | inl hit ↦
      let same : x ≡ row = ground (arith, e, hit) in
      (Memᴰ.head (sym same), rw same at ((eq_iff (column x) value).0 hit))
  | inr miss ↦
      let (m, c) = find_by-mem column value rows row (rw (miss, find_by) at e) in (Memᴰ.tail m, c)
]

org_for-found :
    (faults : Faults) (v : ClaimValue) (sessions : Option Database) (org : Organization)
    → org_for faults v sessions ≡ ok org
    → (db : Database) × (sessions ≡ some db)
      × (find_by (λ (o : Organization). o.id) (str v) db.organizations ≡ some org)
unfolding org_for
org_for-found faults null sessions org e = cc
org_for-found faults _ none org e = cc
org_for-found faults _ (some db) org e = (db, refl, ground arith)

module _ (sha256 : String → String) (auth : Authority) (now : ℕ) (faults : Faults) where
  -- The grounds on which a token stands for a principal: its hash is a key of the environment, it is
  -- the key of a row that is not revoked, or the validator accepts it and its claims name an
  -- organization of the database and some scope.
  pub data Grounds (sessions : Option Database) (token : String) (p : ApiKeyPrincipal)
      : Type 0 where
    env_key :
        contains "api_key" auth.settings.auth_mode ≡ true
        → contains (sha256 token) auth.key_hashes ≡ true
        → p.api_key_hash ≡ sha256 token
        → p.scopes ≡ "chat" ∷ "admin" ∷ "super_admin" ∷ []
        → Grounds sessions token p
    stored_key :
        (db : Database) (k : ApiKey)
        → contains "api_key" auth.settings.auth_mode ≡ true
        → sessions ≡ some db
        → IsLiveRow db (sha256 token) k
        → p ≡ principal_of_key (sha256 token) k
        → Grounds sessions token p
    jwt :
        (validate : String → Option (Dict ClaimValue)) (claims : Dict ClaimValue) (db : Database)
        (org : Organization)
        → contains "jwt" auth.settings.auth_mode ≡ true
        → auth.validator ≡ some validate
        → validate token ≡ some claims
        → sessions ≡ some db
        → Memᴰ org db.organizations
        → org.id ≡ str (claim auth.settings.jwt_org_claim claims)
        → p.org_id ≡ some org.id
        → p.scopes ≢ []
        → Grounds sessions token p

  build_jwt_principal-ok :
      (claims : Dict ClaimValue) (sessions : Option Database) (p : ApiKeyPrincipal)
      → build_jwt_principal sha256 auth.settings faults claims sessions ≡ ok p
      → (org : Organization) × (org_for faults (claim auth.settings.jwt_org_claim claims) sessions
          ≡ ok org)
        × (p.org_id ≡ some org.id)
        × (p.scopes ≢ [])
  unfolding build_jwt_principal
  build_jwt_principal-ok claims sessions p e = ground arith

  jwt-Grounds :
      (sessions : Option Database) (token : String) (validate : String → Option (Dict ClaimValue))
      (claims : Dict ClaimValue) (p : ApiKeyPrincipal)
      → contains "jwt" auth.settings.auth_mode ≡ true
      → auth.validator ≡ some validate
      → validate token ≡ some claims
      → build_jwt_principal sha256 auth.settings faults claims sessions ≡ ok p
      → Grounds sessions token p
  jwt-Grounds sessions token validate claims p mode v accepted e =
      let (org, found, owner, nonempty) = build_jwt_principal-ok claims sessions p e in
      let (db, opened, listed) =
        org_for-found faults (claim auth.settings.jwt_org_claim claims) sessions org found in
      let (m, id) =
        find_by-mem _ (str (claim auth.settings.jwt_org_claim claims)) db.organizations org
          listed in
      jwt validate claims db org mode v accepted opened m id owner nonempty

  -- a successful JWT attempt, taken apart
  try_jwt-ok :
      (token : String) (w : World) (p : ApiKeyPrincipal)
      → (try_jwt sha256 auth now faults token w).0 ≡ ok p
      → (validate : String → Option (Dict ClaimValue)) × (claims : Dict ClaimValue) × (contains
            "jwt" auth.settings.auth_mode
          ≡ true)
        × (auth.validator ≡ some validate)
        × (validate token ≡ some claims)
        × (build_jwt_principal sha256 auth.settings faults claims w.sessions ≡ ok p)
        × ((try_jwt sha256 auth now faults token w).1
            ≡ record w { state = set_request_principal p w.state })
  unfolding try_jwt
  try_jwt-ok token w p e = ground arith

  try_jwt-Grounds :
      (token : String) (w : World) (p : ApiKeyPrincipal)
      → (try_jwt sha256 auth now faults token w).0 ≡ ok p
      → Grounds w.sessions token p
        × ((try_jwt sha256 auth now faults token w).1.state ≡ set_request_principal p w.state)
  try_jwt-Grounds token w p e =
      let (validate, claims, mode, v, accepted, built, after) = try_jwt-ok token w p e in
      (
        jwt-Grounds w.sessions token validate claims p mode v accepted built,
        ap (λ (x : World). x.state) after,
      )

  env-Grounds :
      (token : String) (sessions : Option Database) (p : ApiKeyPrincipal)
      → contains "api_key" auth.settings.auth_mode ≡ true
      → env_validate sha256 auth.key_hashes token ≡ some p
      → Grounds sessions token p
  env-Grounds token sessions p mode e =
      let known : contains (sha256 token) auth.key_hashes ≡ true =
        ground (arith, e, env_validate_lem sha256 auth.key_hashes token) in
      let parts : (p.api_key_hash ≡ sha256 token)
          × (p.scopes ≡ "chat" ∷ "admin" ∷ "super_admin" ∷ []) =
        ground (arith, e, env_validate_lem sha256 auth.key_hashes token) in
      env_key mode known parts.0 parts.1

  or_env-Grounds :
      (token : String) (db : Database) (p : ApiKeyPrincipal)
      (found : Result Unit (Option ApiKeyPrincipal))
      → contains "api_key" auth.settings.auth_mode ≡ true
      → ((q : ApiKeyPrincipal)
          → found ≡ ok (some q)
          → (k : ApiKey) × IsLiveRow db (sha256 token) k × (q ≡ principal_of_key (sha256 token) k))
      → or_env sha256 auth.key_hashes token found ≡ some p
      → Grounds (some db) token p
  unfolding or_env
  or_env-Grounds token db p (ok none) mode f e = env-Grounds token (some db) p mode e
  or_env-Grounds token db p (raise _) mode f e = env-Grounds token (some db) p mode e
  or_env-Grounds token db p (ok (some q)) mode f e =
      let (k, row, same) = f q refl in stored_key db k mode refl row (ground (arith, e, same))

  resolve-Grounds :
      (interval : ℕ) (token : String) (sessions : Option Database) (p : ApiKeyPrincipal)
      → contains "api_key" auth.settings.auth_mode ≡ true
      → (resolve sha256 interval auth.key_hashes now faults token sessions).0 ≡ some p
      → Grounds sessions token p
  unfolding resolve
  resolve-Grounds interval token none p mode e = env-Grounds token none p mode e
  resolve-Grounds interval token (some db) p mode e =
      or_env-Grounds token db p (lookup_key interval now faults (sha256 token) db).0 mode
        (λ q found. lookup_key-found interval now faults (sha256 token) db q found) e

  -- A token that `resolve` knows nothing of leaves the database alone.
  pub resolve-keeps :
      (interval : ℕ) (token : String) (sessions : Option Database)
      → (resolve sha256 interval auth.key_hashes now faults token sessions).0 ≡ none
      → (resolve sha256 interval auth.key_hashes now faults token sessions).1 ≡ sessions
  unfolding resolve
  resolve-keeps interval token none e = refl
  resolve-keeps interval token (some db) e =
      ap some (lookup_key-keeps interval now faults (sha256 token) db (ground arith))

  pub by_token-Grounds :
      (token : String) (w : World) (p : ApiKeyPrincipal)
      → (by_token sha256 auth now faults token w).0 ≡ ok p
      → Grounds w.sessions token p
        × ((by_token sha256 auth now faults token w).1.state ≡ set_request_principal p w.state)
  unfolding by_token
  by_token-Grounds token w p e = elim (Bool-cases (contains "api_key" auth.settings.auth_mode)) [
    | inl mode ↦
        let interval = auth.settings.api_key_last_used_min_interval_seconds in
        elim (Option-cases
          (resolve sha256 interval auth.key_hashes now faults token w.sessions).0) [
            | inl unknown ↦
                let same = resolve-keeps interval token w.sessions unknown in
                let looked : World = record w {
                  sessions =
                      (resolve sha256 interval auth.key_hashes now faults token w.sessions).1;
                } in
                let (grounds, after) = try_jwt-Grounds token looked p (rw (mode, unknown) at e) in
                (subst (λ s. Grounds s token p) same grounds, rw (mode, unknown) after)
            | inr (q, found) ↦
                let is_p : q ≡ p = ground (arith, e, mode, found) in
                (
                  resolve-Grounds interval token w.sessions p mode (found ∙ ap some is_p),
                  ground (arith, mode, found, is_p),
                )
          ]
    | inr off ↦ rw off (try_jwt-Grounds token w p (rw off at e))
  ]
