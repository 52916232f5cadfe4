-- ===== src/Decimal/Digits.antt =====
-- Decimal digits: how `toFixed` writes a number.
use scos.Prelude.{ℕ, zero, suc, ◌+◌, ◌/◌, ◌%◌, ◌^◌, true, false, [], ◌∷◌, ◌++◌, ltb, Text}

abbrev pub digit : ℕ → ℕ
digit n = b'0' + n % 10

-- The last `count` digits.
unfoldable pub last_digits : (count : ℕ) → ℕ → Text
last_digits zero n = []
last_digits (suc count) n = last_digits count (n / 10) ++ digit n ∷ []

-- All digits of a number of at most `fuel + 1` digits, without leading zeros.
unfoldable pub digits : (fuel : ℕ) → ℕ → Text
digits zero n = digit n ∷ []
digits (suc fuel) n = elim (ltb n 10) [
  | true ↦ digit n ∷ []
  | false ↦ digits fuel (n / 10) ++ digit n ∷ []
]

-- n / 10 ^ places with `places` digits behind the point, of at most 40 digits before it.
unfoldable pub fixed_text : (places : ℕ) → ℕ → Text
unfolding digits last_digits
fixed_text zero n = digits 40 n
fixed_text (suc places) n = digits 40 (n / 10 ^ suc places) ++ b'.' ∷ last_digits (suc places) n
