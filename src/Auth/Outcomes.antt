-- ===== src/Auth/Outcomes.antt =====
-- Why a request is let in, and what happens to one that is not.
use ai_serving_backend.Prelude.{
  ℕ, String, ◌≡◌, ◌⊎◌, inl, inr, true, ◌∙◌, Option, none, some, [], arith, Bool-cases, Option-cases,
  raise,
}
use ai_serving_backend.Prelude.Dict.{Dict}
use ai_serving_backend.Prelude.Text.{lower_is}
use ai_serving_backend.Errors.{Exception, api, other, authentication, api_error}
use ai_serving_backend.Db.{Database, Faults}
use ai_serving_backend.Auth.{Credentials, ClaimValue, contains, resolve}
use ai_serving_backend.Auth.Require.{
  Authority, World, build_jwt_principal, require_api_key, by_token, try_jwt,
}
use ai_serving_backend.Auth.Grounds.{Grounds, resolve-keeps}

module _ (sha256 : String → String) (auth : Authority) (now : ℕ) (faults : Faults) where
  -- the exceptions of a refusal: a 401 error, or, with a failing database, an exception of its own
  abbrev pub Refusal : Exception → Type 0
  Refusal e =
      ((message : String) × (e ≡ api (api_error authentication message [])))
      ⊎ ((faults.query_fails ≡ true) × (e ≡ other))

  build_jwt_principal-raises :
      (claims : Dict ClaimValue) (sessions : Option Database) (e : Exception)
      → build_jwt_principal sha256 auth.settings faults claims sessions ≡ raise e
      → Refusal e
  unfolding build_jwt_principal
  build_jwt_principal-raises claims sessions e h = ground arith

  try_jwt-raises :
      (token : String) (w : World) (e : Exception)
      → (try_jwt sha256 auth now faults token w).0 ≡ raise e
      → Refusal e × ((try_jwt sha256 auth now faults token w).1 ≡ w)
  unfolding try_jwt
  try_jwt-raises token w e h = grind (arith, build_jwt_principal-raises)

  by_token-raises :
      (token : String) (w : World) (e : Exception)
      → (by_token sha256 auth now faults token w).0 ≡ raise e
      → Refusal e × ((by_token sha256 auth now faults token w).1 ≡ w)
  unfolding by_token
  by_token-raises token w e h = elim (Bool-cases (contains "api_key" auth.settings.auth_mode)) [
    | inl mode ↦
        let interval = auth.settings.api_key_last_used_min_interval_seconds in
        elim (Option-cases
          (resolve sha256 interval auth.key_hashes now faults token w.sessions).0) [
            | inl unknown ↦
                let looked : World = record w {
                  sessions =
                      (resolve sha256 interval auth.key_hashes now faults token w.sessions).1;
                } in
                let (refusal, after) = try_jwt-raises token looked e (rw (mode, unknown) at h) in
                let same : looked ≡ w = λ i. record {
                  state = w.state;
                  sessions =
                      resolve-keeps sha256 auth now faults interval token w.sessions unknown i;
                } in
                (refusal, rw (mode, unknown) (after ∙ same))
            | inr (q, found) ↦ cc (rw (mode, found) at h)
          ]
    | inr off ↦ rw off (try_jwt-raises token w e (rw off at h))
  ]

  -- A request that is refused meets a 401 error, unless the database fails under a JWT; the refusal
  -- changes neither the request's state nor the database.
  pub require_api_key-raises :
      (c : Option Credentials) (w : World) (e : Exception)
      → (require_api_key sha256 auth now faults c w).0 ≡ raise e
      → Refusal e × ((require_api_key sha256 auth now faults c w).1 ≡ w)
  unfolding require_api_key
  require_api_key-raises none w e h = ground arith
  require_api_key-raises (some b) w e h = elim (Bool-cases (lower_is b.scheme "bearer")) [
    | inl bearer ↦ rw bearer (by_token-raises b.credentials w e (rw bearer at h))
    | inr basic ↦ rw basic (ground (arith, basic))
  ]
