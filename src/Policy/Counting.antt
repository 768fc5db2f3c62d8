-- ===== src/Policy/Counting.antt =====
-- What the scan counts.
use ai_serving_backend.Prelude.{
  ℕ, ◌+◌, String, ◌≡◌, ◌↔◌, refl, sym, ap, ◌∙◌, ◌||◌, Option, none, some, List, [], ◌∷◌, str_eq,
  ◌==◌, if◌then◌else◌, arith, eq_iff, eq_refl, is_some,
}
use ai_serving_backend.Prelude.Dict
use ai_serving_backend.Prelude.Dict.{Dict, get_or, get-put, get-nil}
use ai_serving_backend.Request.{NormalizedMessage}
use ai_serving_backend.Auth.{contains}
use ai_serving_backend.Policy.{
  scan_messages, sorted, insert_sorted, keys, matches_of, RegexModule, CompiledRule, PolicyMatch,
  count_rule, count_rules, count_messages,
}

-- the count of the first report of an id
abbrev pub count_of : String → List PolicyMatch → Option ℕ
count_of id [] = none
count_of id (m ∷ ms) = if str_eq m.rule_id id then some m.count else count_of id ms

count_of-matches_of :
    (id : String) (counts : Dict ℕ) (ids : List String)
    → count_of id (matches_of counts ids)
      ≡ (if contains id ids then some (get_or id 0 counts) else none)
unfolding matches_of contains
count_of-matches_of id counts [] = refl
count_of-matches_of id counts (j ∷ ids) =
    ground (arith, eq_iff j id, count_of-matches_of id counts ids)

contains-insert_sorted :
    (id k : String) (ks : List String) → contains id (insert_sorted k ks) ≡ contains id (k ∷ ks)
unfolding insert_sorted contains
contains-insert_sorted id k [] = refl
contains-insert_sorted id k (j ∷ ks) = ground (arith, contains-insert_sorted id k ks)

contains-sorted : (id : String) (ks : List String) → contains id (sorted ks) ≡ contains id ks
unfolding sorted contains
contains-sorted id [] = refl
contains-sorted id (k ∷ ks) =
    contains-insert_sorted id k (sorted ks) ∙ ap (λ b. str_eq k id || b) (contains-sorted id ks)

contains-keys : (id : String) (d : Dict ℕ) → contains id (keys d) ≡ is_some (Dict.get id d)
unfolding contains Dict.get
contains-keys id [] = refl
contains-keys id ((k, v) ∷ d) = ground (arith, contains-keys id d)

nothing_counted : (ms : List PolicyMatch) → ((id : String) → count_of id ms ≡ none) → ms ≡ []
nothing_counted [] h = refl
nothing_counted (m ∷ ms) h = cc (rw (eq_refl m.rule_id) at (h m.rule_id))

module _ (re : RegexModule) where
  -- the matches in one text of the rules with this id
  abbrev pub hits : String → String → List (CompiledRule re) → ℕ
  hits id content [] = 0
  hits id content (rule ∷ rules) =
      (if str_eq rule.rule_id id then re.count_matches rule.pattern content else 0)
      + hits id content rules

  -- and in all messages
  abbrev pub total_hits : String → List NormalizedMessage → List (CompiledRule re) → ℕ
  total_hits id [] rules = 0
  total_hits id (m ∷ messages) rules = hits id m.content rules + total_hits id messages rules

  -- what the dictionary holds for an id after `n` more hits: an entry is there only for a positive count
  abbrev pub tally : Option ℕ → ℕ → Option ℕ
  tally none n = if n == 0 then none else some n
  tally (some c) n = some (c + n)

  tally-tally : (o : Option ℕ) (m n : ℕ) → tally (tally o m) n ≡ tally o (m + n)
  tally-tally none m n = ground arith
  tally-tally (some c) m n = ground arith

  tally-zero : (o : Option ℕ) → tally o 0 ≡ o
  tally-zero none = refl
  tally-zero (some c) = ground arith

  get-count_rule :
      (id content : String) (rule : CompiledRule re) (counts : Dict ℕ)
      → Dict.get id (count_rule re content counts rule)
        ≡ tally
            (Dict.get id counts)
            (if str_eq rule.rule_id id then re.count_matches rule.pattern content else 0)
  unfolding count_rule
  get-count_rule id content rule counts = grind (arith, get-put, eq_iff rule.rule_id id)

  get-count_rules :
      (id content : String) (rules : List (CompiledRule re)) (counts : Dict ℕ)
      → Dict.get id (count_rules re content rules counts)
        ≡ tally (Dict.get id counts) (hits id content rules)
  unfolding count_rules
  get-count_rules id content [] counts = sym (tally-zero (Dict.get id counts))
  get-count_rules id content (rule ∷ rules) counts =
      get-count_rules id content rules (count_rule re content counts rule)
      ∙ ap (λ o. tally o (hits id content rules)) (get-count_rule id content rule counts)
      ∙ tally-tally (Dict.get id counts)
          (if str_eq rule.rule_id id then re.count_matches rule.pattern content else 0)
          (hits id content rules)

  get-count_messages :
      (id : String) (messages : List NormalizedMessage) (rules : List (CompiledRule re))
      (counts : Dict ℕ)
      → Dict.get id (count_messages re messages rules counts)
        ≡ tally (Dict.get id counts) (total_hits id messages rules)
  unfolding count_messages
  get-count_messages id [] rules counts = sym (tally-zero (Dict.get id counts))
  get-count_messages id (m ∷ messages) rules counts =
      get-count_messages id messages rules (count_rules re m.content rules counts)
      ∙ ap (λ o. tally o (total_hits id messages rules)) (get-count_rules id m.content rules counts)
      ∙ tally-tally (Dict.get id counts) (hits id m.content rules) (total_hits id messages rules)

  -- For every rule id, the scan reports the number of matches of the rules with that id in all the
  -- messages together, and it reports the id at all exactly when that number is positive.
  pub count_of-scan_messages :
      (id : String) (messages : List NormalizedMessage) (rules : List (CompiledRule re))
      → count_of id (scan_messages re messages rules)
        ≡ (if total_hits id messages rules == 0 then none else some (total_hits id messages rules))
  unfolding scan_messages
  count_of-scan_messages id messages rules =
      let counts = count_messages re messages rules [] in
      ground (
        arith,
        count_of-matches_of id counts (sorted (keys counts)),
        contains-sorted id (keys counts),
        contains-keys id counts,
        get-count_messages id messages rules [],
        get-nil {V = ℕ} id,
      )

  -- Nothing is reported exactly when no rule matches anywhere.
  pub scan_messages-empty_iff :
      (messages : List NormalizedMessage) (rules : List (CompiledRule re))
      → (scan_messages re messages rules ≡ []) ↔ ((id : String) → total_hits id messages rules ≡ 0)
  scan_messages-empty_iff messages rules = (
    λ e id. ground (arith, e, count_of-scan_messages id messages rules),
    λ h.
        nothing_counted (scan_messages re messages rules)
          (λ id. ground (arith, h id, count_of-scan_messages id messages rules)),
  )
