-- ===== src/Numeral/Plain.antt =====
-- Fixed-point numbers as exact decimals.
use scos.Prelude.{ℕ, ◌*◌, ◌^◌, ◌≤◌, ◌<◌, ◌≡◌, sym, ◌∙◌, true, some, arith}
use scos.Js.{whole}
use scos.Js.Fixed.{Fixed, pos, negsuc, le_fixed, fixed_floats}
use scos.Js.Fixed.Laws.{Fixed-IsIeee, size-le, is_within-Fixed}
use scos.Decimal.Exact.{Exact, finite, below_zero, exact_decimals}
use scos.Decimal.Exact.Laws.{Exact-IsExact, read_self, units-Exact}
use scos.Numeral.{Numerals, IsNumeral}

abbrev decimal_of_fixed : Fixed → Exact
decimal_of_fixed (pos n) = finite n 6
decimal_of_fixed (negsuc n) = below_zero

instance abbrev pub fixed_numerals : Numerals Fixed Exact
fixed_numerals = record { of_number = decimal_of_fixed }

pub units_of_fixed :
    (n : ℕ) (y : Fixed)
    → Fixed-IsIeee.is_within n y ≡ true
    → le_fixed (whole 0) y ≡ true
    → n ≤ 10 ^ 16
    → (s : ℕ) × (m : ℕ) × (Exact-IsExact.units s (decimal_of_fixed y) ≡ some m)
      × (m ≤ n * 10 ^ s)
      × (m < 10 ^ 24)
units_of_fixed n (pos a) h nonneg le =
    let bound = size-le n (pos a) (sym (is_within-Fixed n (pos a)) ∙ h) in
    (6, a, units-Exact 6 (finite a 6) ∙ read_self a 6, omega arith, omega arith)
units_of_fixed n (negsuc a) h nonneg le = absurd (ground arith)

pub Fixed-IsNumeral : IsNumeral Fixed Exact Fixed-IsIeee Exact-IsExact
Fixed-IsNumeral = record { units_of_number = units_of_fixed }
