-- ===== src/Decimal/Plain/Printed.antt =====
-- How the digits of a number are read back.
use native.Mathlib.Nat.{pow-suc}
use scos.Prelude.{
  ℕ, zero, suc, ◌+◌, ◌-◌, ◌*◌, ◌/◌, ◌%◌, ◌^◌, ◌≤◌, ◌<◌, ◌≡◌, refl, ap, ◌∙◌, Bool, true, false, [],
  ◌∷◌, ◌++◌, ltb, leb, ◌==◌, ◌&&◌, all, length, arith, Text, Bool-cases, inl, inr,
}
use scos.Decimal.Digits.{digit, digits, fixed_text}
use scos.Decimal.Plain.{scan, plain_decimal}

append_assoc : (s t u : Text) → (s ++ t) ++ u ≡ s ++ (t ++ u)
append_assoc [] t u = refl
append_assoc (c ∷ s) t u = ap (c ∷◌) (append_assoc s t u)

length-append : (s t : Text) → length (s ++ t) ≡ length s + length t
length-append [] t = omega arith
length-append (c ∷ s) t = omega (arith, length-append s t)

all-append : (p : ℕ → Bool) (s t : Text) → all p s ≡ true → all p t ≡ true → all p (s ++ t) ≡ true
all-append p [] t h k = k
all-append p (c ∷ s) t h k = ground (arith, all-append p s t)

digits-small : (fuel n : ℕ) → ltb n 10 ≡ true → digits (suc fuel) n ≡ digit n ∷ []
unfolding digits
digits-small fuel n h = rw (digits, h) refl

digits-large :
    (fuel n : ℕ) → ltb n 10 ≡ false → digits (suc fuel) n ≡ digits fuel (n / 10) ++ digit n ∷ []
unfolding digits
digits-large fuel n h = rw (digits, h) refl

scan-digit :
    (n m : ℕ) (rest : Text) → scan (digit n ∷ rest) m false 0 ≡ scan rest (m * 10 + n % 10) false 0
unfolding scan
scan-digit n m rest =
    let not_point : (digit n == b'.') ≡ false = ground arith in
    let value : m * 10 + (digit n - b'0') ≡ m * 10 + n % 10 = omega arith in
    rw (not_point, value) refl

scan-small : (n : ℕ) (rest : Text) → n < 10 → scan (digit n ∷ rest) 0 false 0 ≡ scan rest n false 0
scan-small n rest h = scan-digit n 0 rest ∙ ap (λ m. scan rest m false 0) (omega (arith, h))

-- Before the point, digits are read to the number that they write.
scan-digits :
    (fuel n : ℕ) (rest : Text)
    → n < 10 ^ suc fuel
    → scan (digits fuel n ++ rest) 0 false 0 ≡ scan rest n false 0
unfolding digits
scan-digits zero n rest h = scan-small n rest h
scan-digits (suc fuel) n rest h = elim (Bool-cases (ltb n 10)) [
  | inl small ↦ rw (digits-small fuel n small) (scan-small n rest (ground (arith, small)))
  | inr large ↦
      rw (digits-large fuel n large, append_assoc (digits fuel (n / 10)) (digit n ∷ []) rest)
        (scan-digits fuel (n / 10) (digit n ∷ rest) (omega (arith, h, pow-suc 10 (suc fuel)))
          ∙ scan-digit n (n / 10) rest
          ∙ ap (λ m. scan rest m false 0) (omega arith))
]

pub length-digits :
    (fuel n k : ℕ)
    → n < 10 ^ suc k
    → (1 ≤ length (digits fuel n)) × (length (digits fuel n) ≤ suc k)
unfolding digits
length-digits zero n k h = (omega arith, omega arith)
length-digits (suc fuel) n zero h =
    rw (digits-small fuel n (ground (arith, h))) (omega arith, omega arith)
length-digits (suc fuel) n (suc k) h = elim (Bool-cases (ltb n 10)) [
  | inl small ↦ rw (digits-small fuel n small) (omega arith, omega arith)
  | inr large ↦
      let shorter = length-digits fuel (n / 10) k (omega (arith, h, pow-suc 10 (suc k))) in
      rw (digits-large fuel n large, length-append (digits fuel (n / 10)) (digit n ∷ []))
        (omega arith, omega (arith, shorter.1))
]

-- A digit of decimal text.
abbrev pub is_decimal_digit : ℕ → Bool
is_decimal_digit c = leb b'0' c && leb c b'9'

pub all-digits : (fuel n : ℕ) → all is_decimal_digit (digits fuel n) ≡ true
unfolding digits
all-digits zero n = ground arith
all-digits (suc fuel) n = elim (Bool-cases (ltb n 10)) [
  | inl small ↦ rw (digits-small fuel n small) (ground arith)
  | inr large ↦ rw (digits-large fuel n large) (
      all-append is_decimal_digit (digits fuel (n / 10)) (digit n ∷ []) (all-digits fuel (n / 10))
        (ground arith))
]

-- The two digits behind the point.
abbrev pub cents_text : ℕ → Text
cents_text c = digit (c / 10) ∷ digit c ∷ []

pub fixed_text_cents : (c : ℕ) → fixed_text 2 c ≡ digits 40 (c / 100) ++ b'.' ∷ cents_text c
unfolding fixed_text
fixed_text_cents c = refl

not_point : (n : ℕ) → (digit n == b'.') ≡ false
not_point n = ground arith

scan-cents :
    (c m : ℕ) → scan (b'.' ∷ cents_text c) m false 0 ≡ ((m * 10 + c / 10 % 10) * 10 + c % 10, 2)
unfolding scan
scan-cents c m =
    let tens : digit (c / 10) - b'0' ≡ c / 10 % 10 = omega arith in
    let ones : digit c - b'0' ≡ c % 10 = omega arith in
    rw (not_point (c / 10), not_point c, tens, ones) refl

-- An amount printed with two digits behind the point is read back exactly.
pub plain_decimal-fixed_text : (c : ℕ) → c < 10 ^ 40 → plain_decimal (fixed_text 2 c) ≡ (c, 2)
unfolding plain_decimal
plain_decimal-fixed_text c h = rw (fixed_text_cents c) (
    scan-digits 40 (c / 100) (b'.' ∷ cents_text c) (omega (arith, h))
    ∙ scan-cents c (c / 100)
    ∙ ap (λ n. (n, 2)) (omega arith))
