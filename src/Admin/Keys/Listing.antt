-- ===== src/Admin/Keys/Listing.antt =====
-- app/routers/admin.py: what an administrator of one organization sees of the keys.
use ai_serving_backend.Prelude.{
  String, ◌≡◌, refl, ap, ◌∙◌, sym, Bool, false, Option, none, some, List, [], ◌∷◌, filter, arith,
  All, Result, ok, raise, eq_iff, Bool-cases, subst, inl, inr, leb,
}
use ai_serving_backend.Errors.{Exception}
use ai_serving_backend.Auth.{ApiKeyPrincipal, is_super_admin}
use ai_serving_backend.Db.{Database, ApiKey}
use ai_serving_backend.Admin.{require_sessionmaker, principal_org_id}
use ai_serving_backend.Admin.Keys.{
  insert_by_created, sort_by_created, listed_org, shown, list_api_keys,
}

insert-All :
    (P : ApiKey → Type 0) (k : ApiKey) (ks : List ApiKey)
    → P k
    → All P ks
    → All P (insert_by_created k ks)
unfolding insert_by_created
insert-All P k [] h hs = (h, tt)
insert-All P k (j ∷ ks) h hs = elim (Bool-cases (leb j.created_at k.created_at)) [
  | inl later ↦ rw later (h, hs)
  | inr earlier ↦ rw earlier (hs.0, insert-All P k ks h hs.1)
]

sort-All : (P : ApiKey → Type 0) (ks : List ApiKey) → All P ks → All P (sort_by_created ks)
unfolding sort_by_created
sort-All P [] h = tt
sort-All P (k ∷ ks) h = insert-All P k (sort_by_created ks) h.0 (sort-All P ks h.1)

-- A key of the organization; and when revoked keys are not asked for, one that is not revoked.
abbrev pub IsListed : String → Bool → ApiKey → Type 0
IsListed org_id include_revoked k =
    (k.org_id ≡ org_id) × (include_revoked ≡ false → k.revoked_at ≡ none)

shown-All :
    (org_id : String) (include_revoked : Bool) (ks : List ApiKey)
    → All (IsListed org_id include_revoked) (filter (shown (some org_id) include_revoked) ks)
shown-All org_id include_revoked [] = tt
shown-All org_id include_revoked (k ∷ ks) =
    elim (Bool-cases (shown (some org_id) include_revoked k)) [
      | inl it ↦
          rw it (ground (arith, eq_iff k.org_id org_id, it), shown-All org_id include_revoked ks)
      | inr not_it ↦ rw not_it (shown-All org_id include_revoked ks)
    ]

abbrev items_of : Result Exception (List ApiKey) → List ApiKey
items_of (ok ks) = ks
items_of (raise _) = []

-- Whatever organization an administrator who is no super admin asks for, every key that is listed is of
-- the administrator's own organization, and not revoked unless revoked keys are asked for.
pub list_api_keys-confined :
    (org_id : Option String) (include_revoked : Bool) (p : ApiKeyPrincipal) (own : String)
    (db : Database) (ks : List ApiKey)
    → is_super_admin p ≡ false
    → p.org_id ≡ some own
    → list_api_keys org_id include_revoked p (some db) ≡ ok ks
    → All (IsListed own include_revoked) ks
unfolding list_api_keys require_sessionmaker listed_org principal_org_id
list_api_keys-confined org_id include_revoked p own db ks plain e listed =
    let answer : list_api_keys org_id include_revoked p (some db)
        ≡ ok (sort_by_created (filter (shown (some own) include_revoked) db.api_keys)) =
      rw (list_api_keys, plain, e) refl in
    subst (All (IsListed own include_revoked)) (ap items_of (sym answer ∙ listed))
      (sort-All (IsListed own include_revoked) _ (shown-All own include_revoked db.api_keys))
