-- ===== src/Decimal.antt =====
-- decimal.js as `packages/core/src/domain/shared/decimal.ts` configures it (precision 40,
-- ROUND_HALF_UP). The package is not part of the repository: its values and operations are an
-- instance argument, and `IsExact` states what the code relies on of its documented behaviour.
pub mod Digits
pub mod Exact
pub mod Plain
use scos.Prelude.{
  ℕ, ◌+◌, ◌*◌, ◌/◌, ◌-◌, ◌^◌, ◌≤◌, ◌<◌, ◌≡◌, Bool, true, false, Option, some, none, ltb, leb, ◌==◌,
  Text,
}
use scos.Decimal.Digits.{fixed_text}

-- The methods that the code calls. `decimal n s` is `new DomainDecimal` of the plain decimal text
-- with the digits `n`, the last `s` of them behind the point; a whole number `n` is `decimal n 0`.
pub record Decimals (D : Type 0) : Type 0 where
  pub decimal : ℕ → ℕ → D
  pub is_finite : D → Bool
  pub less_than : D → D → Bool
  pub greater_than : D → D → Bool
  pub less_than_or_equal_to : D → D → Bool
  pub equals : D → D → Bool
  pub plus : D → D → D
  pub minus : D → D → D
  pub times : D → D → D
  pub abs : D → D
  pub decimal_places : D → ℕ
  -- `toDecimalPlaces(places, ROUND_HALF_UP)` and `toDecimalPlaces(places, ROUND_DOWN)`
  pub round_half_up : ℕ → D → D
  pub round_down : ℕ → D → D
  -- `toFixed(places)`
  pub to_fixed : ℕ → D → Text

-- DomainDecimal.precision
abbrev pub precision : ℕ
precision = 40

-- `units s d ≡ some n`: `d` is finite, not negative, and exactly n / 10 ^ s.
pub record IsExact (D : Type 0) ⦃d : Decimals D⦄ : Type 0 where
  pub units : ℕ → D → Option ℕ
  pub units-decimal : (n s : ℕ) → units s (d.decimal n s) ≡ some n
  -- the same value, read at a finer scale
  pub units-rescale : (a : D) (s k n : ℕ) → units s a ≡ some n → units (s + k) a ≡ some (n * 10 ^ k)
  pub is_finite_of_units : (a : D) (s n : ℕ) → units s a ≡ some n → d.is_finite a ≡ true
  -- A value that is finite and not negative has the scale that `decimalPlaces` gives.
  pub decimal_places_of_units : (a : D) (s n : ℕ) → units s a ≡ some n → d.decimal_places a ≤ s
  pub units_of_decimal_places :
      (a : D) (p s n : ℕ)
      → units s a ≡ some n
      → d.decimal_places a ≤ p
      → (m : ℕ) × (units p a ≡ some m)
  pub units_of_finite :
      (a : D)
      → d.is_finite a ≡ true
      → d.less_than a (d.decimal 0 0) ≡ false
      → (n : ℕ) × (units (d.decimal_places a) a ≡ some n)
  -- Comparisons are exact.
  pub less_than-units :
      (a b : D) (s m n : ℕ) → units s a ≡ some m → units s b ≡ some n → d.less_than a b ≡ ltb m n
  pub greater_than-units :
      (a b : D) (s m n : ℕ) → units s a ≡ some m → units s b ≡ some n → d.greater_than a b ≡ ltb n m
  pub less_than_or_equal_to-units :
      (a b : D) (s m n : ℕ)
      → units s a ≡ some m
      → units s b ≡ some n
      → d.less_than_or_equal_to a b ≡ leb m n
  pub equals-units :
      (a b : D) (s m n : ℕ) → units s a ≡ some m → units s b ≡ some n → d.equals a b ≡ (m == n)
  -- Arithmetic is exact as long as the result has at most `precision` digits.
  pub plus-units :
      (a b : D) (s m n : ℕ)
      → units s a ≡ some m
      → units s b ≡ some n
      → m + n < 10 ^ precision
      → units s (d.plus a b) ≡ some (m + n)
  -- With more digits the sum is rounded, which is monotone and keeps whole numbers.
  pub plus-within :
      (a b : D) (s m n k l : ℕ)
      → units s a ≡ some m
      → units s b ≡ some n
      → m ≤ k * 10 ^ s
      → n ≤ l * 10 ^ s
      → k + l < 10 ^ precision
      → (t : ℕ) × (r : ℕ) × (units t (d.plus a b) ≡ some r) × (r ≤ (k + l) * 10 ^ t)
  pub minus-units :
      (a b : D) (s m n : ℕ)
      → units s a ≡ some m
      → units s b ≡ some n
      → n ≤ m
      → m < 10 ^ precision
      → units s (d.minus a b) ≡ some (m - n)
  pub minus_negative :
      (a b : D) (s m n : ℕ)
      → units s a ≡ some m
      → units s b ≡ some n
      → m < n
      → d.less_than (d.minus a b) (d.decimal 0 0) ≡ true
  pub times-units :
      (a b : D) (s t m n : ℕ)
      → units s a ≡ some m
      → units t b ≡ some n
      → m * n < 10 ^ precision
      → units (s + t) (d.times a b) ≡ some (m * n)
  pub abs-units : (a : D) (s n : ℕ) → units s a ≡ some n → units s (d.abs a) ≡ some n
  -- Rounding to a number of places is exact in every case: half up, and toward zero.
  pub round_half_up-units :
      (a : D) (p s n : ℕ)
      → units (p + s) a ≡ some n
      → units p (d.round_half_up p a) ≡ some ((2 * n + 10 ^ s) / (2 * 10 ^ s))
  pub round_down-units :
      (a : D) (p s n : ℕ)
      → units (p + s) a ≡ some n
      → units p (d.round_down p a) ≡ some (n / 10 ^ s)
  -- Printing with at least as many places as the value has.
  pub to_fixed-units :
      (a : D) (p n : ℕ) → units p a ≡ some n → n < 10 ^ precision → d.to_fixed p a ≡ fixed_text p n
