-- ===== src/Numeral.antt =====
-- `new DomainDecimal(String(x))` of a number x: the decimal that the number prints as. Neither the
-- printing nor the package is part of the repository, so it is an instance argument.
pub mod Plain
use scos.Prelude.{ℕ, ◌*◌, ◌^◌, ◌≤◌, ◌<◌, ◌≡◌, true, some}
use scos.Js.{Floats, IsIeee, whole}
use scos.Decimal.{Decimals, IsExact}

pub record Numerals (N : Type 0) (D : Type 0) : Type 0 where
  pub of_number : N → D

-- A number below 10 ^ 16 prints with at most 17 significant digits, and as no
-- more than its bound.
pub record IsNumeral (N D : Type 0) ⦃f : Floats N⦄ ⦃d : Decimals D⦄ ⦃t : Numerals N D⦄
    (ieee : IsIeee N) (x : IsExact D) : Type 0 where
  pub units_of_number :
      (n : ℕ) (y : N)
      → ieee.is_within n y ≡ true
      → f.le (whole 0) y ≡ true
      → n ≤ 10 ^ 16
      → (s : ℕ) × (m : ℕ) × (x.units s (t.of_number y) ≡ some m) × (m ≤ n * 10 ^ s) × (m < 10 ^ 24)
