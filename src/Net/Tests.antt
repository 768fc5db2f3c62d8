-- ===== src/Net/Tests.antt =====
-- The address of a client behind one proxy.
use ai_serving_backend.Prelude.{
  String, ◌≡◌, ◌≢◌, refl, true, false, some, [], ◌∷◌, ◌++◌, str_eq, eq_iff, reverse,
}
use ai_serving_backend.Prelude.Text.{csv_items, strip, split_on}
use ai_serving_backend.Net.{IpModule, NetSettings, client_ip, is_trusted_proxy, valid_entries}
use ai_serving_backend.Net.Trust.{client_ip-nearest_untrusted}

-- every text is an address, and a network is the text of its one address
abbrev texts : IpModule
texts = record { Address = String; ip_address = λ t. some t; in_network = λ a n. some (str_eq a n) }

abbrev behind : NetSettings
behind = record { trust_forwarded_for = true; trusted_proxies = "10.0.0.1" ∷ "10.0.0.2" ∷ [] }

trusts_proxy : is_trusted_proxy texts "10.0.0.1" behind.trusted_proxies ≡ true
unfolding is_trusted_proxy strip
trusts_proxy = refl

trusts_hop : is_trusted_proxy texts "10.0.0.2" behind.trusted_proxies ≡ true
unfolding is_trusted_proxy strip
trusts_hop = refl

trusts_no_client : is_trusted_proxy texts "1.2.3.4" behind.trusted_proxies ≡ false
unfolding is_trusted_proxy strip
trusts_no_client = refl

entries :
    valid_entries texts "9.9.9.9, 1.2.3.4,10.0.0.2"
    ≡ ("9.9.9.9" ∷ []) ++ "1.2.3.4" ∷ reverse ("10.0.0.2" ∷ [])
unfolding valid_entries csv_items strip split_on
entries = refl

not_blank : ◌≢◌ {A = String} "9.9.9.9, 1.2.3.4,10.0.0.2" ""
not_blank e = let clash : false ≡ true = (eq_iff "9.9.9.9, 1.2.3.4,10.0.0.2" "").1 e in cc

client_ip-nearest_untrusted_example :
    client_ip texts (some "10.0.0.1") (some "9.9.9.9, 1.2.3.4,10.0.0.2") behind ≡ "1.2.3.4"
client_ip-nearest_untrusted_example =
    client_ip-nearest_untrusted texts behind "10.0.0.1" "9.9.9.9, 1.2.3.4,10.0.0.2" ("9.9.9.9" ∷ [])
      ("10.0.0.2" ∷ []) "1.2.3.4" refl trusts_proxy not_blank entries (trusts_hop, tt)
      trusts_no_client
