-- ===== src/Auth/Keys.antt =====
-- Keys of the environment and of the database.
use ai_serving_backend.Prelude.{
  ℕ, String, ◌≡◌, ◌⊎◌, inl, inr, refl, sym, Bool, true, Option, none, some, List, [], ◌∷◌, arith,
  eq_iff, Bool-cases, filter, if◌then◌else◌, Result, ok, raise,
}
use mathlib.Core.List.{Memᴰ}
use ai_serving_backend.Db.{Database, ApiKey, Faults, scalar_one_or_none}
use ai_serving_backend.Auth.{
  ApiKeyPrincipal, contains, matched_hash, env_validate, lookup_key, is_live, use_rows, use_row,
  principal_of_key,
}

matched_hash_lem :
    (h : String) (hashes : List String) (m : Option String)
    → (m ≡ none) ⊎ (m ≡ some h)
    → matched_hash h hashes m ≡ (if contains h hashes then some h else m)
unfolding matched_hash contains
matched_hash_lem h [] m ok' = refl
matched_hash_lem h (x ∷ hashes) m ok' = ground (
  arith,
  eq_iff h x,
  eq_iff x h,
  matched_hash_lem h hashes m ok',
  matched_hash_lem h hashes (some h) (inr refl),
)

module _ (sha256 : String → String) where
  -- The environment's store accepts a token exactly when the hash of the token is stored; the
  -- principal carries that hash and the three scopes.
  pub env_validate_lem :
      (hashes : List String) (token : String)
      → env_validate sha256 hashes token ≡ (
          if contains (sha256 token) hashes
          then some (record {
            api_key_hash = sha256 token;
            api_key_id = none;
            org_id = none;
            scopes = "chat" ∷ "admin" ∷ "super_admin" ∷ [];
          })
          else none)
  unfolding env_validate
  env_validate_lem hashes token =
      ground (arith, matched_hash_lem (sha256 token) hashes none (inl refl))

-- A live row of a database: stored, with this hash, and not revoked.
pub record IsLiveRow (db : Database) (token_hash : String) (k : ApiKey) : Type 0 where
  pub stored : Memᴰ k db.api_keys
  pub hashed : k.key_hash ≡ token_hash
  pub unrevoked : k.revoked_at ≡ none

filter-mem :
    (h : String) (k : ApiKey) (rows rest : List ApiKey)
    → filter (is_live h) rows ≡ k ∷ rest
    → Memᴰ k rows × (is_live h k ≡ true)
filter-mem h k [] rest e = cc
filter-mem h k (x ∷ rows) rest e = elim (Bool-cases (is_live h x)) [
  | inl live ↦ let same : x ≡ k = ground (arith, e, live) in (Memᴰ.head (sym same), rw same at live)
  | inr dead ↦ let (m, l) = filter-mem h k rows rest (rw dead at e) in (Memᴰ.tail m, l)
]

is_live-parts :
    (h : String) (k : ApiKey) → is_live h k ≡ true → (k.key_hash ≡ h) × (k.revoked_at ≡ none)
is_live-parts h k e = ground (arith, eq_iff k.key_hash h)

scalar-some :
    {A : Type 0} (rows : List A) (k : A) → scalar_one_or_none rows ≡ ok (some k) → rows ≡ k ∷ []
unfolding scalar_one_or_none
scalar-some [] k e = cc
scalar-some (x ∷ []) k e = ground arith
scalar-some (x ∷ y ∷ rest) k e = cc

use_row-found :
    (interval now : ℕ) (h : String) (fails : Bool) (k : ApiKey) (db : Database)
    (p : ApiKeyPrincipal)
    → (use_row interval now h fails k db).0 ≡ ok (some p)
    → p ≡ principal_of_key h k
unfolding use_row
use_row-found interval now h fails k db p e = ground arith

-- What the lookup finds is a live row with the token's hash.
pub lookup_key-found :
    (interval now : ℕ) (faults : Faults) (h : String) (db : Database) (p : ApiKeyPrincipal)
    → (lookup_key interval now faults h db).0 ≡ ok (some p)
    → (k : ApiKey) × IsLiveRow db h k × (p ≡ principal_of_key h k)
unfolding lookup_key
lookup_key-found interval now faults h db p e = elim (Bool-cases faults.query_fails) [
  | inl fails ↦ cc (rw (fails, lookup_key) at e)
  | inr runs ↦
      let rows = filter (is_live h) db.api_keys in
      go (scalar_one_or_none rows) refl (rw (runs, lookup_key) at e)
]
  where
    go :
        (found : Result Unit (Option ApiKey))
        → scalar_one_or_none (filter (is_live h) db.api_keys) ≡ found
        → (use_rows interval now h faults.commit_fails found db).0 ≡ ok (some p)
        → (k : ApiKey) × IsLiveRow db h k × (p ≡ principal_of_key h k)
    go (ok none) f u = cc
    go (raise x) f u = cc
    go (ok (some k)) f u =
        let (m, live) = filter-mem h k db.api_keys [] (scalar-some _ k f) in
        let (hashed, fresh) = is_live-parts h k live in
        (
          k,
          record { stored = m; hashed = hashed; unrevoked = fresh },
          use_row-found interval now h faults.commit_fails k db p u,
        )

abbrev pub found_of : Result Unit (Option ApiKeyPrincipal) → Option ApiKeyPrincipal
found_of (ok found) = found
found_of (raise _) = none

-- A lookup that finds nobody leaves the database alone.
pub lookup_key-keeps :
    (interval now : ℕ) (faults : Faults) (h : String) (db : Database)
    → found_of (lookup_key interval now faults h db).0 ≡ none
    → (lookup_key interval now faults h db).1 ≡ db
unfolding lookup_key
lookup_key-keeps interval now faults h db e = ground arith
