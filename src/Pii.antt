-- ===== src/Pii.antt =====
-- app/compliance/pii.py: detection of personal data; Mask has the masking. The scans by `re` are an argument:
-- `finditer` gives, for each of the four patterns, the spans of its matches, and for the pattern of
-- resident registration numbers the groups of a match, whose digits `int` reads.
pub mod Redacted
pub mod Luhn
pub mod Spans
pub mod Mask
pub mod Placeholders
pub mod Render
mod Tests
use Prim.Native.String
use Prim.Native.Char.{code}
use ai_serving_backend.Prelude.{
  ℕ, zero, suc, ◌+◌, ◌-◌, ◌*◌, ◌/◌, ◌%◌, String, Bool, true, false, not, ◌&&◌, ◌||◌, Option, none,
  some, List, [], ◌∷◌, ◌++◌, str_eq, ltb, leb, ◌==◌, if◌then◌else◌, length, filter, any, is_empty,
  reverse, map,
}
use ai_serving_backend.Prelude.Text.{str_nat, str_take, str_drop}
use ai_serving_backend.Prelude.Dict
use ai_serving_backend.Prelude.Dict.{Dict, get_or}
use ai_serving_backend.Request.{NormalizedMessage}

pub data PiiType : Type 0 where
  email rrn card phone : PiiType

abbrev pub name : PiiType → String
name email = "email"
name rrn = "rrn"
name card = "card"
name phone = "phone"

-- pii_type.upper()
abbrev pub upper_name : PiiType → String
upper_name email = "EMAIL"
upper_name rrn = "RRN"
upper_name card = "CARD"
upper_name phone = "PHONE"

abbrev pub same_type : PiiType → PiiType → Bool
same_type a b = str_eq (name a) (name b)

-- DETECTOR_PRIORITY
abbrev pub detector_priority : List PiiType
detector_priority = email ∷ rrn ∷ card ∷ phone ∷ []

-- (start, end, pii_type, raw_value)
pub record Candidate : Type 0 where
  pub start : ℕ
  pub end : ℕ
  pub pii_type : PiiType
  pub raw_value : String

-- a match of RRN_RE: its span and its groups 1 to 4, read as digits
pub record RrnMatch : Type 0 where
  pub start : ℕ
  pub end : ℕ
  pub year : ℕ
  pub month : ℕ
  pub day : ℕ
  pub gender_digit : ℕ

-- re.finditer of the four patterns; a card match comes with the digits of its text, which are what is
-- left of it without blanks and dashes
pub record Scanner : Type 0 where
  pub find_email : String → List (ℕ × ℕ)
  pub find_rrn : String → List RrnMatch
  pub find_card : String → List (ℕ × ℕ × List ℕ)
  pub find_phone : String → List (ℕ × ℕ)

-- datetime.date's calendar
abbrev is_leap : ℕ → Bool
is_leap y = (y % 4 == 0 && not (y % 100 == 0)) || y % 400 == 0

unfoldable pub days_in_month : ℕ → ℕ → ℕ
days_in_month y m =
    if m == 2
    then (if is_leap y then 29 else 28)
    else if m == 4 || m == 6 || m == 9 || m == 11
    then 30
    else 31

-- does date(y, m, d) return?
unfoldable pub is_date : ℕ → ℕ → ℕ → Bool
unfolding days_in_month
is_date y m d = leb 1 m && leb m 12 && leb 1 d && leb d (days_in_month y m)

unfoldable pub valid_rrn_date : ℕ → ℕ → ℕ → ℕ → Bool
unfolding is_date
valid_rrn_date year month day gender_digit =
    let g = gender_digit in
    let century : ℕ = if g == 1 || g == 2 || g == 5 || g == 6 then 1900 else 2000 in
    is_date (century + year) month day

-- one round of the loop of `_luhn_valid`
unfoldable pub luhn_digit : Bool → ℕ → ℕ
luhn_digit odd digit =
    if odd then (if ltb 9 (digit * 2) then digit * 2 - 9 else digit * 2) else digit

-- the total over the digits from the last to the first; `odd` is `index % 2 == 1`
unfoldable pub luhn_total : Bool → List ℕ → ℕ
unfolding luhn_digit
luhn_total odd [] = 0
luhn_total odd (digit ∷ digits) = luhn_digit odd digit + luhn_total (not odd) digits

unfoldable pub luhn_valid : List ℕ → Bool
unfolding luhn_total
luhn_valid value = luhn_total false (reverse value) % 10 == 0

-- text[start:end]
unfoldable pub slice : String → ℕ → ℕ → String
slice text start end = str_drop start (str_take end text)

abbrev candidate : PiiType → String → ℕ → ℕ → Candidate
candidate t text start end = record {
  start = start;
  end = end;
  pii_type = t;
  raw_value = slice text start end;
}

rrn_candidates : String → List RrnMatch → List Candidate
rrn_candidates text [] = []
rrn_candidates text (m ∷ matches) =
    let rest = rrn_candidates text matches in
    if valid_rrn_date m.year m.month m.day m.gender_digit
    then candidate rrn text m.start m.end ∷ rest
    else rest

card_candidates : String → List (ℕ × ℕ × List ℕ) → List Candidate
card_candidates text [] = []
card_candidates text ((start, end, digits) ∷ matches) =
    let rest = card_candidates text matches in
    if leb 13 (length digits) && leb (length digits) 19 && luhn_valid digits
    then candidate card text start end ∷ rest
    else rest

-- _phone_candidates and _email_candidates
span_candidates : PiiType → String → List (ℕ × ℕ) → List Candidate
span_candidates t text [] = []
span_candidates t text ((start, end) ∷ matches) =
    candidate t text start end ∷ span_candidates t text matches

-- DETECTORS
unfoldable pub detect : Scanner → PiiType → String → List Candidate
unfolding rrn_candidates card_candidates span_candidates
detect s email text = span_candidates email text (s.find_email text)
detect s rrn text = rrn_candidates text (s.find_rrn text)
detect s card text = card_candidates text (s.find_card text)
detect s phone text = span_candidates phone text (s.find_phone text)

unfoldable pub overlaps : Candidate → List Candidate → Bool
overlaps c [] = false
overlaps c (a ∷ accepted) = (ltb c.start a.end && ltb a.start c.end) || overlaps c accepted

-- the inner loop of `_collect_candidates`
unfoldable pub accept : List Candidate → List Candidate → List Candidate
unfolding overlaps
accept accepted [] = accepted
accept accepted (c ∷ candidates) =
    accept (if overlaps c accepted then accepted else accepted ++ c ∷ []) candidates

-- the enabled types: those of `enabled_types` that are known
abbrev pub enabled_by : List String → PiiType → Bool
enabled_by [] t = false
enabled_by (x ∷ xs) t = str_eq x (name t) || enabled_by xs t

-- the outer loop
collect_from : Scanner → String → List String → List PiiType → List Candidate → List Candidate
unfolding accept
collect_from s text enabled [] accepted = accepted
collect_from s text enabled (t ∷ types) accepted =
    collect_from s text enabled types
      (if enabled_by enabled t then accept accepted (detect s t text) else accepted)

unfoldable pub collect_candidates : Scanner → String → List String → List Candidate
unfolding collect_from
collect_candidates s text enabled = collect_from s text enabled detector_priority []
