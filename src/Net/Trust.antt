-- ===== src/Net/Trust.antt =====
-- When a header can choose the address.
use mathlib.Core.List.{reverse-append, reverse-cons, reverse-reverse, append_assoc}
use ai_serving_backend.Prelude.{
  String, ◌≡◌, ◌≢◌, true, false, Option, some, List, [], ◌∷◌, ◌++◌, reverse, arith, eq_iff, All,
  ◌⊎◌,
}
use ai_serving_backend.Net.{
  IpModule, NetSettings, is_trusted_proxy, client_ip, valid_entries, first_untrusted, pick,
}

reverse-around {ℓ} :
    {A : Type ℓ} (before hops : List A) (entry : A)
    → reverse (before ++ entry ∷ reverse hops) ≡ hops ++ entry ∷ reverse before
reverse-around before hops entry =
    simp (reverse-append, reverse-cons, reverse-reverse, append_assoc)

module _ (ip : IpModule) (settings : NetSettings) where
  -- A peer that is no trusted proxy cannot choose its address: whatever it sends in X-Forwarded-For,
  -- it counts as itself. The same holds of every peer where forwarding is switched off.
  pub client_ip-untrusted_peer :
      (host : String) (forwarded : Option String)
      → (settings.trust_forwarded_for ≡ false)
        ⊎ (is_trusted_proxy ip host settings.trusted_proxies ≡ false)
      → client_ip ip (some host) forwarded settings ≡ host
  unfolding client_ip
  client_ip-untrusted_peer host forwarded h = ground arith

  first_untrusted-skips :
      (hops rest : List String) (entry default : String)
      → All (λ hop. is_trusted_proxy ip hop settings.trusted_proxies ≡ true) hops
      → is_trusted_proxy ip entry settings.trusted_proxies ≡ false
      → first_untrusted ip settings.trusted_proxies (hops ++ entry ∷ rest) default ≡ entry
  unfolding first_untrusted
  first_untrusted-skips [] rest entry default h u = rw u
  first_untrusted-skips (hop ∷ hops) rest entry default h u =
      rw h.0 (first_untrusted-skips hops rest entry default h.1 u)

  pick-nearest :
      (before hops : List String) (entry remote_ip : String)
      → All (λ hop. is_trusted_proxy ip hop settings.trusted_proxies ≡ true) hops
      → is_trusted_proxy ip entry settings.trusted_proxies ≡ false
      → pick ip settings.trusted_proxies (before ++ entry ∷ reverse hops) remote_ip ≡ entry
  unfolding pick
  pick-nearest [] hops entry remote_ip h u =
      rw (reverse-around [] hops entry) (first_untrusted-skips hops [] entry entry h u)
  pick-nearest (x ∷ before) hops entry remote_ip h u =
      rw (reverse-around (x ∷ before) hops entry)
        (first_untrusted-skips hops (reverse (x ∷ before)) entry x h u)

  -- Behind a trusted peer, the address is the nearest one in the header that is not a trusted proxy:
  -- with the addresses `before`, then `entry`, then trusted `hops` only, it is `entry`, whatever a
  -- client wrote before it.
  pub client_ip-nearest_untrusted :
      (host header : String) (before hops : List String) (entry : String)
      → settings.trust_forwarded_for ≡ true
      → is_trusted_proxy ip host settings.trusted_proxies ≡ true
      → header ≢ ""
      → valid_entries ip header ≡ before ++ entry ∷ reverse hops
      → All (λ hop. is_trusted_proxy ip hop settings.trusted_proxies ≡ true) hops
      → is_trusted_proxy ip entry settings.trusted_proxies ≡ false
      → client_ip ip (some host) (some header) settings ≡ entry
  unfolding client_ip
  client_ip-nearest_untrusted host header before hops entry on peer nonempty split trusted u =
      rw (on, peer, split)
        (ground (arith, eq_iff header "", pick-nearest before hops entry host trusted u))
