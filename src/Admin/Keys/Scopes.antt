-- ===== src/Admin/Keys/Scopes.antt =====
-- app/routers/admin.py and app/auth.py: the scopes of a key, through the text of its row.
use ai_serving_backend.Prelude.{
  ℕ, String, ◌≡◌, refl, ap, ◌∙◌, subst, Bool, false, not, some, List, [], ◌∷◌, ◌++◌, map, filter,
  arith, All, All-append, ok, str_eq, Bool-cases, inl, inr, if◌then◌else◌, is_empty,
}
use ai_serving_backend.Prelude.Text.{split_on, join, strip, csv_items}
use ai_serving_backend.Prelude.Text.Csv.{
  IsItem, split_on-join, map-strip, filter-IsItem, csv_items-IsItem,
}
use ai_serving_backend.Auth.{
  ApiKeyPrincipal, is_super_admin, contains, parse_scopes, principal_of_key,
}
use ai_serving_backend.Db.{Database, ApiKey}
use ai_serving_backend.Admin.Keys.{
  ApiKeyCreateRequest, without_super, add_scopes, collect_scopes, normalize_scopes, create_api_key,
}
use ai_serving_backend.Admin.Keys.Grants.{create_api_key-Confined}

contains-filter :
    (x : String) (p : String → Bool) (xs : List String)
    → contains x xs ≡ false
    → contains x (filter p xs) ≡ false
unfolding contains
contains-filter x p [] h = refl
contains-filter x p (y ∷ xs) h = elim (Bool-cases (p y)) [
  | inl kept ↦ rw kept (ground (arith, contains-filter x p xs, h))
  | inr left ↦ rw left (ground (arith, contains-filter x p xs, h))
]

abbrev is_text : String → Bool
is_text p = not (str_eq p "")

csv_items-join :
    (x : String) (scopes : List String)
    → All IsItem scopes
    → contains x scopes ≡ false
    → contains x (csv_items (join "," scopes)) ≡ false
unfolding csv_items join contains strip
csv_items-join x [] h e = refl
csv_items-join x (s ∷ scopes) h e =
    ap (λ ps. contains x (filter is_text (map strip ps))) (split_on-join s scopes h)
    ∙ ap (λ ps. contains x (filter is_text ps)) (map-strip (s ∷ scopes) h)
    ∙ contains-filter x is_text (s ∷ scopes) e

or_chat :
    (xs : List String)
    → contains "super_admin" xs ≡ false
    → contains "super_admin" (if is_empty xs then "chat" ∷ [] else xs) ≡ false
unfolding contains
or_chat [] e = refl
or_chat (x ∷ xs) e = e

no_super : contains "super_admin" ("chat" ∷ []) ≡ false
unfolding contains
no_super = refl

only_chat : csv_items "chat" ≡ "chat" ∷ []
unfolding csv_items strip split_on
only_chat = refl

parse_scopes-join :
    (scopes : List String)
    → All IsItem scopes
    → contains "super_admin" scopes ≡ false
    → contains "super_admin" (parse_scopes (some (join "," scopes))) ≡ false
unfolding parse_scopes
parse_scopes-join scopes h e = elim (Bool-cases (str_eq (join "," scopes) "")) [
  | inl blank ↦ rw (parse_scopes, blank) (or_chat (csv_items "chat") (rw only_chat no_super))
  | inr given ↦
      rw (parse_scopes, given)
        (or_chat (csv_items (join "," scopes)) (csv_items-join "super_admin" scopes h e))
]

add_scopes-IsItem :
    (scopes parts : List String)
    → All IsItem scopes
    → All IsItem parts
    → All IsItem (add_scopes scopes parts)
unfolding add_scopes
add_scopes-IsItem scopes [] h k = h
add_scopes-IsItem scopes (s ∷ parts) h k = elim (Bool-cases (contains s scopes)) [
  | inl seen ↦ rw seen (add_scopes-IsItem scopes parts h k.1)
  | inr new ↦ rw new (
      add_scopes-IsItem (scopes ++ s ∷ []) parts (All-append IsItem scopes (s ∷ []) h (k.0, tt))
        k.1)
]

collect_scopes-IsItem :
    (scopes items : List String) → All IsItem scopes → All IsItem (collect_scopes scopes items)
unfolding collect_scopes
collect_scopes-IsItem scopes [] h = h
collect_scopes-IsItem scopes (item ∷ items) h =
    collect_scopes-IsItem (add_scopes scopes (csv_items item)) items
      (add_scopes-IsItem scopes (csv_items item) h (csv_items-IsItem item))

normalize_scopes-IsItem :
    (items scopes : List String) → normalize_scopes items ≡ ok scopes → All IsItem scopes
unfolding normalize_scopes
normalize_scopes-IsItem items scopes e =
    let same : collect_scopes [] items ≡ scopes = ground (arith, e) in
    subst (All IsItem) same (collect_scopes-IsItem [] items tt)

-- A key that an administrator who is no super admin gets made is never the key of a super admin:
-- whatever items the request gave for its scopes, when they are validated and the key is made, the
-- principal that the key's row stands for, when the key is used, does not have the scope `super_admin`.
pub create_api_key-never_super :
    (sha256 : String → String) (token id : String) (now : ℕ) (items : List String)
    (body : ApiKeyCreateRequest) (p : ApiKeyPrincipal) (db db' : Database) (k : ApiKey)
    → is_super_admin p ≡ false
    → normalize_scopes items ≡ ok body.scopes
    → create_api_key sha256 token id now body p (some db) ≡ (ok k, some db')
    → is_super_admin (principal_of_key (sha256 token) k) ≡ false
unfolding is_super_admin principal_of_key
create_api_key-never_super sha256 token id now items body p db db' k plain valid e =
    let (_, _, _, _, _, text, _, none_super) =
      create_api_key-Confined sha256 token id now body p db db' k plain e in
    let scopes = normalize_scopes-IsItem items body.scopes valid in
    rw text (
      parse_scopes-join (without_super body.scopes) (filter-IsItem _ body.scopes scopes) none_super)
