-- ===== src/Settings/Bounds.antt =====
-- What the settings are known to be, once they are accepted.
use ai_serving_backend.Prelude.{
  ℕ, ◌≤◌, String, ◌≡◌, refl, ap, ◌⊎◌, inl, inr, true, Option, none, some, List, [], ◌∷◌, ◌++◌,
  arith, All, all, leb, leb→le, Bool-cases, ok, if◌then◌else◌, subst,
}
use ai_serving_backend.Prelude.Int.{ℤ, pos, negsuc}
use ai_serving_backend.Settings.{
  Settings, Given, or_else, int_at_least, list_field, auth_mode_field, policy_mode_field,
  allowed_mode, allowed_policy, ListValue, Field,
}
use ai_serving_backend.Settings.Load.{
  report, concat, reports, errors_of, settings_of, accept_unless, load,
}

-- A number is the default if none is given, and else the one that is given, which is at least `least`.
abbrev pub IsRead : ℕ → ℕ → Option ℤ → ℕ → Type 0
IsRead least default given n =
    ((given ≡ none) × (n ≡ default)) ⊎ ((given ≡ some (pos n)) × (least ≤ n))

pub record IsLoaded (g : Given) (s : Settings) : Type 0 where
  pub api_key_last_used_min_interval_seconds :
      IsRead 0 60 g.api_key_last_used_min_interval_seconds s.api_key_last_used_min_interval_seconds
  pub rate_limit_rpm : IsRead 0 60 g.rate_limit_rpm s.rate_limit_rpm
  pub pre_auth_rpm_per_ip : IsRead 0 30 g.pre_auth_rpm_per_ip s.pre_auth_rpm_per_ip
  pub max_request_bytes : IsRead 1 1048576 g.max_request_bytes s.max_request_bytes
  pub max_messages : IsRead 1 200 g.max_messages s.max_messages
  pub max_message_chars : IsRead 1 100000 g.max_message_chars s.max_message_chars
  pub max_model_name_chars : IsRead 1 128 g.max_model_name_chars s.max_model_name_chars
  pub max_output_tokens : IsRead 1 4096 g.max_output_tokens s.max_output_tokens
  pub stream_max_duration_seconds :
      IsRead 1 300 g.stream_max_duration_seconds s.stream_max_duration_seconds
  pub max_concurrent_streams_per_key :
      IsRead 1 4 g.max_concurrent_streams_per_key s.max_concurrent_streams_per_key
  pub auth_mode : all allowed_mode s.auth_mode ≡ true
  pub policy_mode : allowed_policy s.policy_mode ≡ true

int_at_least-IsRead :
    (least default : ℕ) (given : Option ℤ) (n : ℕ)
    → int_at_least least default given ≡ some n
    → IsRead least default given n
unfolding int_at_least
int_at_least-IsRead least default none n h = inl (refl, cc)
int_at_least-IsRead least default (some (negsuc m)) n h = cc
int_at_least-IsRead least default (some (pos m)) n h = elim (Bool-cases (leb least m)) [
  | inl it ↦
      let h' = rw it at h in
      let same : m ≡ n = cc in
      inr (ap (λ k. some (pos k)) same, omega (arith, leb→le least m it, same))
  | inr other ↦ let h' = rw other at h in absurd (cc)
]

append-eq-nil : (xs ys : List String) → xs ++ ys ≡ [] → (xs ≡ []) × (ys ≡ [])
append-eq-nil [] ys h = (refl, h)
append-eq-nil (x ∷ xs) ys h = cc

concat-eq-nil : (xss : List (List String)) → concat xss ≡ [] → All (λ xs. xs ≡ []) xss
concat-eq-nil [] h = tt
concat-eq-nil (xs ∷ xss) h =
    let (e, more) = append-eq-nil xs (concat xss) h in (e, concat-eq-nil xss more)

report-nil :
    {A : Type 0} (name : String) (f : Field A) → report name f ≡ [] → (v : A) × (f ≡ some v)
report-nil name none h = cc
report-nil name (some v) h = (v, refl)

report-IsRead :
    (least default : ℕ) (given : Option ℤ) (name : String)
    → report name (int_at_least least default given) ≡ []
    → IsRead least default given (or_else (int_at_least least default given) 0)
report-IsRead least default given name h =
    let (n, e) = report-nil name (int_at_least least default given) h in
    rw e (int_at_least-IsRead least default given n e)

auth_mode-allowed :
    (given : Option ListValue)
    → report "AUTH_MODE" (auth_mode_field given) ≡ []
    → all allowed_mode (or_else (auth_mode_field given) []) ≡ true
unfolding auth_mode_field
auth_mode-allowed none h = refl
auth_mode-allowed (some v) h = checked (list_field [] (some v)) h
  where
    checked :
        (f : Field (List String))
        → report "AUTH_MODE" (elim f [
          | none ↦ none
          | some modes ↦ if all allowed_mode modes then some modes else none
        ])
          ≡ []
        → all allowed_mode (
            or_else
              (elim f [
                | none ↦ none
                | some modes ↦ if all allowed_mode modes then some modes else none
              ])
              [])
          ≡ true
    checked none k = cc
    checked (some modes) k = elim (Bool-cases (all allowed_mode modes)) [
      | inl it ↦ rw (it, it) refl
      | inr other ↦ let k' = rw other at k in absurd (cc)
    ]

policy_mode-allowed :
    (given : Option String)
    → report "POLICY_MODE" (policy_mode_field given) ≡ []
    → allowed_policy (or_else (policy_mode_field given) "") ≡ true
unfolding policy_mode_field
policy_mode-allowed none h = refl
policy_mode-allowed (some m) h = elim (Bool-cases (allowed_policy m)) [
  | inl it ↦ rw (it, it) refl
  | inr other ↦ let h' = rw other at h in absurd (cc)
]

settings_of-IsLoaded : (g : Given) → errors_of g ≡ [] → IsLoaded g (settings_of g)
unfolding errors_of settings_of reports
settings_of-IsLoaded g h =
    let (
      _,
      (
        auth_mode_,
        (
          api_key_last_used_min_interval_seconds_,
          (
            _,
            (
              _,
              (
                policy_mode_,
                (
                  _,
                  (
                    _,
                    (
                      rate_limit_rpm_,
                      (
                        pre_auth_rpm_per_ip_,
                        (
                          _,
                          (
                            max_request_bytes_,
                            (
                              max_messages_,
                              (
                                max_message_chars_,
                                (
                                  max_model_name_chars_,
                                  (
                                    max_output_tokens_,
                                    (
                                      stream_max_duration_seconds_,
                                      (max_concurrent_streams_per_key_, (_, (_, (_, _)))),
                                    ),
                                  ),
                                ),
                              ),
                            ),
                          ),
                        ),
                      ),
                    ),
                  ),
                ),
              ),
            ),
          ),
        ),
      ),
    ) =
      concat-eq-nil (reports g) h in
    record {
      api_key_last_used_min_interval_seconds =
          report-IsRead 0 60 g.api_key_last_used_min_interval_seconds
            "API_KEY_LAST_USED_MIN_INTERVAL_SECONDS" api_key_last_used_min_interval_seconds_;
      rate_limit_rpm = report-IsRead 0 60 g.rate_limit_rpm "RATE_LIMIT_RPM" rate_limit_rpm_;
      pre_auth_rpm_per_ip =
          report-IsRead 0 30 g.pre_auth_rpm_per_ip "PRE_AUTH_RPM_PER_IP" pre_auth_rpm_per_ip_;
      max_request_bytes =
          report-IsRead 1 1048576 g.max_request_bytes "MAX_REQUEST_BYTES" max_request_bytes_;
      max_messages = report-IsRead 1 200 g.max_messages "MAX_MESSAGES" max_messages_;
      max_message_chars =
          report-IsRead 1 100000 g.max_message_chars "MAX_MESSAGE_CHARS" max_message_chars_;
      max_model_name_chars =
          report-IsRead 1 128 g.max_model_name_chars "MAX_MODEL_NAME_CHARS" max_model_name_chars_;
      max_output_tokens =
          report-IsRead 1 4096 g.max_output_tokens "MAX_OUTPUT_TOKENS" max_output_tokens_;
      stream_max_duration_seconds =
          report-IsRead 1 300 g.stream_max_duration_seconds "STREAM_MAX_DURATION_SECONDS"
            stream_max_duration_seconds_;
      max_concurrent_streams_per_key =
          report-IsRead 1 4 g.max_concurrent_streams_per_key "MAX_CONCURRENT_STREAMS_PER_KEY"
            max_concurrent_streams_per_key_;
      auth_mode = auth_mode-allowed g.auth_mode auth_mode_;
      policy_mode = policy_mode-allowed g.policy_mode policy_mode_;
    }

-- When the settings are accepted, each bounded number is its default or the number that was given,
-- which is within its bound; the authentication modes are known ones, and so is the policy's.
pub load-IsLoaded : (g : Given) (s : Settings) → load g ≡ ok s → IsLoaded g s
unfolding load
load-IsLoaded g s h = from_errors (errors_of g) refl h
  where
    from_errors :
        (es : List String)
        → errors_of g ≡ es
        → accept_unless es (settings_of g) ≡ ok s
        → IsLoaded g s
    from_errors [] e k = subst (IsLoaded g) (cc) (settings_of-IsLoaded g e)
    from_errors (x ∷ xs) e k = cc
