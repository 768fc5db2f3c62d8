-- ===== src/Pii/Luhn.antt =====
-- The check digit of card numbers.
use mathlib.Core.List.{reverse-append, reverse-cons, append_assoc}
use ai_serving_backend.Prelude.{
  ℕ, ◌+◌, ◌%◌, ◌<◌, ◌≡◌, ◌≢◌, Bool, true, false, not, List, [], ◌∷◌, ◌++◌, arith, reverse,
}
use ai_serving_backend.Pii.{luhn_digit, luhn_total, luhn_valid}

-- the parity of the digit that stands behind these
abbrev parity : Bool → List ℕ → Bool
parity odd [] = odd
parity odd (x ∷ xs) = parity (not odd) xs

luhn_digit-lt : (odd : Bool) (d : ℕ) → d < 10 → luhn_digit odd d < 10
unfolding luhn_digit
luhn_digit-lt odd d h = ground arith

luhn_digit_inj :
    (odd : Bool) (d e : ℕ) → d < 10 → e < 10 → luhn_digit odd d ≡ luhn_digit odd e → d ≡ e
unfolding luhn_digit
luhn_digit_inj odd d e h k p = ground arith

-- Two numbers that differ in one digit have totals that differ in that digit's part.
luhn_total-swap :
    (odd : Bool) (xs ys : List ℕ) (d e : ℕ)
    → luhn_total odd (xs ++ d ∷ ys) + luhn_digit (parity odd xs) e
      ≡ luhn_total odd (xs ++ e ∷ ys) + luhn_digit (parity odd xs) d
unfolding luhn_total
luhn_total-swap odd [] ys d e = omega arith
luhn_total-swap odd (x ∷ xs) ys d e = omega (arith, luhn_total-swap (not odd) xs ys d e)

mod_ten_apart : (s t a b : ℕ) → s + b ≡ t + a → a < 10 → b < 10 → a ≢ b → s % 10 ≡ 0 → t % 10 ≢ 0
mod_ten_apart s t a b e p q ne z = omega arith

reverse-around : (xs ys : List ℕ) (d : ℕ) → reverse (xs ++ d ∷ ys) ≡ reverse ys ++ d ∷ reverse xs
reverse-around xs ys d = simp (reverse-append, reverse-cons, append_assoc)

-- The check finds every error in a single digit: if a number is valid, changing any one of its digits
-- to another digit makes it invalid.
pub luhn_valid-one_digit :
    (xs ys : List ℕ) (d e : ℕ)
    → d < 10
    → e < 10
    → d ≢ e
    → luhn_valid (xs ++ d ∷ ys) ≡ true
    → luhn_valid (xs ++ e ∷ ys) ≡ false
unfolding luhn_valid
luhn_valid-one_digit xs ys d e h k ne v =
    let odd = parity false (reverse ys) in
    rw (reverse-around xs ys e) (
      ground (
        arith,
        rw (reverse-around xs ys d) at v,
        mod_ten_apart (luhn_total false (reverse ys ++ d ∷ reverse xs))
            (luhn_total false (reverse ys ++ e ∷ reverse xs)) (luhn_digit odd d) (luhn_digit odd e)
            (luhn_total-swap false (reverse ys) (reverse xs) d e) (luhn_digit-lt odd d h)
            (luhn_digit-lt odd e k) (λ p. ne (luhn_digit_inj odd d e h k p)),
      ))
