-- ===== src/Net.antt =====
-- app/net.py: the address that a request counts as coming from. The `ipaddress` module is an argument:
-- whether a text is an address, and whether an address lies in a network (`none` where the text is no
-- network).
pub mod Trust
mod Tests
use ai_serving_backend.Prelude.{
  ℕ, String, Bool, true, false, not, Option, none, some, List, [], ◌∷◌, map, filter, reverse,
  str_eq, is_empty, if◌then◌else◌,
}
use ai_serving_backend.Prelude.Text.{strip, csv_items}

pub record IpModule : Type 1 where
  pub Address : Type 0
  pub ip_address : String → Option Address
  -- `address in ip_network(text, strict=False)`; `none` is its ValueError
  pub in_network : Address → String → Option Bool

pub record NetSettings : Type 0 where
  pub trust_forwarded_for : Bool
  pub trusted_proxies : List String

module _ (ip : IpModule) where
  open ip use {Address, ip_address, in_network}

  -- one entry of the trusted list: blank ones and ones that are no network are skipped
  abbrev covers : Address → String → Bool
  covers remote item =
      let candidate = strip item in
      if str_eq candidate ""
      then false
      else elim (in_network remote candidate) [ none ↦ false | some inside ↦ inside ]

  -- the loop of `is_trusted_proxy`
  covered : Address → List String → Bool
  covered remote [] = false
  covered remote (item ∷ trusted) =
      let rest = covered remote trusted in if covers remote item then true else rest

  unfoldable pub is_trusted_proxy : String → List String → Bool
  unfolding covered
  is_trusted_proxy remote_ip trusted = elim (ip_address remote_ip) [
    | none ↦ false
    | some remote ↦ covered remote trusted
  ]

  abbrev is_address : String → Bool
  is_address entry = elim (ip_address entry) [ none ↦ false | some _ ↦ true ]

  -- [entry.strip() for entry in forwarded_for.split(",") if entry.strip()], less what is no address
  unfoldable pub valid_entries : String → List String
  unfolding csv_items
  valid_entries forwarded_for = filter is_address (csv_items forwarded_for)

  -- the last loop of `client_ip`
  unfoldable pub first_untrusted : List String → List String → String → String
  first_untrusted trusted [] default = default
  first_untrusted trusted (entry ∷ entries) default =
      let rest = first_untrusted trusted entries default in
      if is_trusted_proxy entry trusted then rest else entry

  -- the walk over the entries, from the nearest hop; the farthest one if all are trusted
  unfoldable pub pick : List String → List String → String → String
  pick trusted [] remote_ip = remote_ip
  pick trusted (farthest ∷ entries) remote_ip =
      first_untrusted trusted (reverse (farthest ∷ entries)) farthest

  -- client_ip, given the peer (`none` where the server does not know it) and the X-Forwarded-For header
  unfoldable pub client_ip : Option String → Option String → NetSettings → String
  unfolding pick
  client_ip client forwarded settings =
      let remote_ip : String = elim client [ none ↦ "unknown" | some host ↦ host ] in
      if not settings.trust_forwarded_for
      then remote_ip
      else if not (is_trusted_proxy remote_ip settings.trusted_proxies)
      then remote_ip
      else elim forwarded [
        | none ↦ remote_ip
        | some forwarded_for ↦
            if str_eq forwarded_for ""
            then remote_ip
            else pick settings.trusted_proxies (valid_entries forwarded_for) remote_ip
      ]
