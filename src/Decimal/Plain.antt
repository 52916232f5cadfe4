-- ===== src/Decimal/Plain.antt =====
-- Plain decimal text: what `new DomainDecimal(text)` reads of digits with at most one point.
pub mod Printed
use scos.Prelude.{
  ℕ, ◌+◌, ◌-◌, ◌*◌, ◌≡◌, refl, Bool, false, ◌||◌, [], ◌∷◌, ◌==◌, if◌then◌else◌, Text, codes,
}
use scos.Decimal.{Decimals}

-- The digits so far, whether the point has been read, and the digits behind it.
unfoldable pub scan : Text → ℕ → Bool → ℕ → ℕ × ℕ
scan [] n behind s = (n, s)
scan (c ∷ t) n behind s =
    let point = c == b'.' in
    scan t (if point then n else n * 10 + (c - b'0')) (point || behind)
      (if point then s else if behind then s + 1 else s)

unfoldable pub plain_decimal : Text → ℕ × ℕ
unfolding scan
plain_decimal t = scan t 0 false 0

-- `new DomainDecimal(text)`
unfoldable pub decimal_of_text : {D : Type 0} ⦃d : Decimals D⦄ → Text → D
decimal_of_text ⦃d⦄ t = d.decimal (plain_decimal t).0 (plain_decimal t).1

reads_rate : plain_decimal (codes "0.15") ≡ (15, 2)
unfolding plain_decimal
reads_rate = refl

reads_amount : plain_decimal (codes "0150.5") ≡ (1505, 1)
unfolding plain_decimal
reads_amount = refl
