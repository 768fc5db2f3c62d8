-- ===== src/Prelude/Text.antt =====
-- The string methods of Python that the program calls: `strip`, `split`, `partition`, `join`.
pub mod Strip
pub mod Padding
pub mod Lines
pub mod Csv
use Prim.Native.Nat.{ℕ, zero, suc, ◌/◌, ◌%◌, ◌+◌}
use Prim.Native.Char.{Char, code}
use Prim.Native.String
use Prim.Native.String.{String, [], ◌∷◌}
use mathlib.Core.Bool.{Bool, true, false, not, ◌&&◌, ◌||◌}
use mathlib.Core.List.{List, [], ◌∷◌, map}
use text.Mathlib.Text.{◌==◌ as str_eq}
use ai_serving_backend.Prelude.Lists.{filter}
use ai_serving_backend.Prelude.Tests.{leb, ltb, ◌==◌, if◌then◌else◌}

-- str.isspace of one code point
unfoldable pub is_space : ℕ → Bool
is_space c =
    (leb 9 c && leb c 13)
    || (leb 28 c && leb c 32)
    || c == 133
    || c == 160
    || c == 5760
    || (leb 8192 c && leb c 8202)
    || c == 8232
    || c == 8233
    || c == 8239
    || c == 8287
    || c == 12288

-- str.lstrip
pub lstrip : String → String
lstrip [] = []
lstrip (c ∷ s) = let rest = lstrip s in if is_space (code c) then rest else c ∷ s

abbrev only_if_text : Char → String → String
only_if_text c [] = if is_space (code c) then [] else c ∷ []
only_if_text c (d ∷ s) = c ∷ d ∷ s

-- str.rstrip
pub rstrip : String → String
rstrip [] = []
rstrip (c ∷ s) = only_if_text c (rstrip s)

unfoldable pub strip : String → String
unfolding lstrip rstrip is_space
strip s = rstrip (lstrip s)

abbrev on_head : Char → List String → List String
on_head c [] = (c ∷ []) ∷ []
on_head c (p ∷ ps) = (c ∷ p) ∷ ps

-- s.split(sep) for a separator of one character
unfoldable pub split_on : ℕ → String → List String
split_on sep [] = [] ∷ []
split_on sep (c ∷ s) =
    let rest = split_on sep s in if code c == sep then [] ∷ rest else on_head c rest

-- s.partition(sep) for a separator of one character: the part before, whether the separator
-- occurs, the part after
unfoldable pub partition : ℕ → String → String × Bool × String
partition sep [] = ([], false, [])
partition sep (c ∷ s) =
    let (before, found, after) = partition sep s in
    if code c == sep then ([], true, s) else (c ∷ before, found, after)

-- sep.join(parts)
unfoldable pub join : String → List String → String
join sep [] = []
join sep (p ∷ []) = p
join sep (p ∷ q ∷ ps) = String.◌++◌ p (String.◌++◌ sep (join sep (q ∷ ps)))

-- len(s), in code points
abbrev pub str_length : String → ℕ
str_length [] = 0
str_length (c ∷ s) = suc (str_length s)

digit_text : ℕ → String
digit_text d =
    if d == 0
    then "0"
    else if d == 1
    then "1"
    else if d == 2
    then "2"
    else if d == 3
    then "3"
    else if d == 4
    then "4"
    else if d == 5
    then "5"
    else if d == 6
    then "6"
    else if d == 7
    then "7"
    else if d == 8
    then "8"
    else "9"

-- str(n), with fuel: a number below 10 ^ f has at most f digits
str_fuel : ℕ → ℕ → String
str_fuel zero n = []
str_fuel (suc f) n =
    let more = String.◌++◌ (str_fuel f (n / 10)) (digit_text (n % 10)) in
    if ltb n 10 then digit_text n else more

-- str(n) of a number
unfoldable pub str_nat : ℕ → String
unfolding digit_text str_fuel
str_nat n = str_fuel (suc n) n

-- put `c` before the first part, or open a part with it
abbrev grow : Char → Bool → List String → List String
grow c true ps = on_head c ps
grow c false ps = (c ∷ []) ∷ ps

starts_word : String → Bool
starts_word [] = false
starts_word (c ∷ s) = not (is_space (code c))

-- s.split(): the runs of characters that are not white space
unfoldable pub split_words : String → List String
unfolding is_space starts_word
split_words [] = []
split_words (c ∷ s) =
    let rest = split_words s in if is_space (code c) then rest else grow c (starts_word s) rest

lower_code : ℕ → ℕ
lower_code c = if leb 65 c && leb c 90 then c + 32 else c

-- s.lower() == t, for a `t` of ASCII letters that no letter outside ASCII lowers to
unfoldable pub lower_is : String → String → Bool
unfolding lower_code
lower_is [] [] = true
lower_is (c ∷ s) (d ∷ t) = lower_code (code c) == code d && lower_is s t
lower_is _ _ = false

-- [item.strip() for item in s.split(",") if item.strip()]
unfoldable pub csv_items : String → List String
unfolding strip split_on
csv_items s = filter (λ p. not (str_eq p "")) (map strip (split_on b',' s))

-- s[:n] and s[n:], in code points
unfoldable pub str_take : ℕ → String → String
str_take zero s = []
str_take (suc n) [] = []
str_take (suc n) (c ∷ s) = c ∷ str_take n s

unfoldable pub str_drop : ℕ → String → String
str_drop zero s = s
str_drop (suc n) [] = []
str_drop (suc n) (c ∷ s) = str_drop n s
