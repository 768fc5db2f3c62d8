-- ===== src/Admin/Keys/Grants.antt =====
-- app/routers/admin.py: what an administrator of one organization can do about keys.
use ai_serving_backend.Prelude.{
  ℕ, String, ◌≡◌, ◌⊎◌, refl, ap, sym, true, false, not, Option, none, some, List, [], ◌∷◌, ◌++◌,
  filter, arith, ok, str_eq, eq_iff, Bool-cases, subst, Result-cases, inl, inr, is_some, is_empty,
}
use ai_serving_backend.Prelude.Text.{join}
use ai_serving_backend.Auth.{ApiKeyPrincipal, is_super_admin, contains}
use ai_serving_backend.Db.{Database, ApiKey, find_by}
use ai_serving_backend.Admin.{require_sessionmaker, principal_org_id}
use ai_serving_backend.Admin.Keys.{
  ApiKeyCreateRequest, without_super, granted, new_key, insert_key, create_api_key,
}

contains-filter :
    (xs : List String)
    → contains "super_admin" (filter (λ s. not (str_eq s "super_admin")) xs) ≡ false
unfolding contains
contains-filter [] = refl
contains-filter (x ∷ xs) = elim (Bool-cases (str_eq x "super_admin")) [
  | inl it ↦ rw it (contains-filter xs)
  | inr other ↦ rw (other, other) (contains-filter xs)
]

-- What a principal that is no super admin is granted: its own organization, and no super_admin.
granted-own :
    (p : ApiKeyPrincipal) (body : ApiKeyCreateRequest) (org_id : String) (scopes : List String)
    → is_super_admin p ≡ false
    → granted p body ≡ ok (org_id, scopes)
    → (p.org_id ≡ some org_id)
      × (body.org_id ≡ org_id)
      × (scopes ≡ without_super body.scopes)
      × (is_empty scopes ≡ false)
unfolding granted principal_org_id
granted-own p body org_id scopes plain e = grind (arith, eq_iff, plain, e)

insert_key-found :
    (k j : ApiKey) (db db' : Database)
    → insert_key k db ≡ (ok j, some db')
    → (j ≡ k)
      × (db'.api_keys ≡ db.api_keys ++ k ∷ [])
      × (is_some (find_by (λ o. o.id) k.org_id db.organizations) ≡ true)
unfolding insert_key
insert_key-found k j db db' e = ground (arith, e)

create-found :
    (sha256 : String → String) (token id : String) (now : ℕ) (body : ApiKeyCreateRequest)
    (p : ApiKeyPrincipal) (db db' : Database) (k : ApiKey)
    → create_api_key sha256 token id now body p (some db) ≡ (ok k, some db')
    → (grant : String × List String) × (granted p body ≡ ok grant)
      × (insert_key (new_key sha256 token id now body.name grant) db ≡ (ok k, some db'))
unfolding create_api_key require_sessionmaker
create-found sha256 token id now body p db db' k e = elim (Result-cases (granted p body)) [
  | inl (grant, g) ↦ (grant, g, rw (create_api_key, g) at e)
  | inr (x, g) ↦ let clash = rw (create_api_key, g) at e in cc
]

-- A key that is one row more, with the given hash, not revoked, of the principal's own organization,
-- which the request named, with the scopes that were asked for less `super_admin`, of which some are left.
abbrev pub Confined :
    ApiKeyPrincipal → ApiKeyCreateRequest → String → Database → Database → ApiKey → Type 0
Confined p body token_hash db db' k =
    (db'.api_keys ≡ db.api_keys ++ k ∷ [])
    × (k.key_hash ≡ token_hash)
    × (k.revoked_at ≡ none)
    × (p.org_id ≡ some k.org_id)
    × (body.org_id ≡ k.org_id)
    × (k.scopes ≡ join "," (without_super body.scopes))
    × (is_empty (without_super body.scopes) ≡ false)
    × (contains "super_admin" (without_super body.scopes) ≡ false)

-- When an administrator who is no super admin gets a key made, the key is one row that is added to the
-- keys, with the hash of the token, not revoked, of the administrator's own organization, which the
-- request named; its scopes are those that the request named, in their order, without `super_admin`, and
-- there is at least one.
pub create_api_key-Confined :
    (sha256 : String → String) (token id : String) (now : ℕ) (body : ApiKeyCreateRequest)
    (p : ApiKeyPrincipal) (db db' : Database) (k : ApiKey)
    → is_super_admin p ≡ false
    → create_api_key sha256 token id now body p (some db) ≡ (ok k, some db')
    → Confined p body (sha256 token) db db' k
create_api_key-Confined sha256 token id now body p db db' k plain e =
    let ((org_id, scopes), g, i) = create-found sha256 token id now body p db db' k e in
    let own = granted-own p body org_id scopes plain g in
    let new =
      insert_key-found (new_key sha256 token id now body.name (org_id, scopes)) k db db' i in
    subst (Confined p body (sha256 token) db db') (sym new.0) (
      new.1,
      refl,
      refl,
      own.0,
      own.1,
      ap (join ",") own.2,
      subst (λ l. is_empty l ≡ false) own.2 own.3,
      contains-filter body.scopes,
    )

-- Who may revoke a key: a super admin, or an administrator of the key's organization.
abbrev pub MayRevoke : ApiKeyPrincipal → ApiKey → Type 0
MayRevoke p k = (is_super_admin p ≡ true) ⊎ (p.org_id ≡ some k.org_id)

abbrev keys_of : Database → Option Database → List ApiKey
keys_of db none = db.api_keys
keys_of db (some db') = db'.api_keys
