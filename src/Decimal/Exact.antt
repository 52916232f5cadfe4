-- ===== src/Decimal/Exact.antt =====
-- Decimals of any number of digits, which meet `IsExact`: the instance at which the witnesses and
-- the tests run.
pub mod Laws
use Prim.Native.Nat.{max}
use scos.Prelude.{
  ℕ, ◌+◌, ◌*◌, ◌/◌, ◌-◌, ◌^◌, Bool, true, false, Option, some, none, ltb, leb, ◌==◌, if◌then◌else◌,
  [], Text,
}
use scos.Decimal.{Decimals}
use scos.Decimal.Digits.{fixed_text}

-- `finite m t` is m / 10 ^ t.
pub data Exact : Type 0 where
  finite : ℕ → ℕ → Exact
  below_zero : Exact
  not_finite : Exact

-- m / 10 ^ t counted in units of 1 / 10 ^ u
abbrev pub scaled : ℕ → ℕ → ℕ → ℕ
scaled m t u = m * 10 ^ (u - t)

abbrev pub exact_units : ℕ → Exact → Option ℕ
exact_units s (finite m t) = if leb t s then some (scaled m t s) else none
exact_units s below_zero = none
exact_units s not_finite = none

-- Both numbers at the finer of their scales.
abbrev pub aligned {ℓ} : {A : Type ℓ} → (ℕ → ℕ → A) → ℕ → ℕ → ℕ → ℕ → A
aligned f m s n t = f (scaled m s (max s t)) (scaled n t (max s t))

abbrev pub compare_with : (ℕ → ℕ → Bool) → Exact → Exact → Bool
compare_with f (finite m s) (finite n t) = aligned f m s n t
compare_with f _ _ = false

abbrev pub is_below : Exact → Exact → Bool
is_below below_zero (finite n t) = true
is_below a b = compare_with ltb a b

abbrev pub add_exact : Exact → Exact → Exact
add_exact (finite m s) (finite n t) = finite (aligned ◌+◌ m s n t) (max s t)
add_exact _ _ = not_finite

abbrev pub difference : ℕ → ℕ → ℕ → Exact
difference u m n = if ltb m n then below_zero else finite (m - n) u

abbrev pub sub_exact : Exact → Exact → Exact
sub_exact (finite m s) (finite n t) = aligned (difference (max s t)) m s n t
sub_exact _ _ = not_finite

abbrev pub mul_exact : Exact → Exact → Exact
mul_exact (finite m s) (finite n t) = finite (m * n) (s + t)
mul_exact _ _ = not_finite

abbrev pub finite_exact : Exact → Bool
finite_exact not_finite = false
finite_exact _ = true

abbrev pub places_exact : Exact → ℕ
places_exact (finite m t) = t
places_exact _ = 0

-- m / 10 ^ t with `f` at the digits that are dropped
abbrev pub round_with : (ℕ → ℕ → ℕ) → ℕ → Exact → Exact
round_with f p (finite m t) = if leb t p then finite m t else finite (f m (10 ^ (t - p))) p
round_with f p a = a

abbrev pub half_up : ℕ → ℕ → ℕ
half_up m k = (2 * m + k) / (2 * k)

abbrev pub down : ℕ → ℕ → ℕ
down m k = m / k

abbrev pub print_exact : ℕ → Exact → Text
print_exact p (finite m t) =
    fixed_text p (if leb t p then scaled m t p else half_up m (10 ^ (t - p)))
print_exact p a = []

instance abbrev pub exact_decimals : Decimals Exact
exact_decimals = record {
  decimal = finite;
  is_finite = finite_exact;
  less_than = is_below;
  greater_than = compare_with (λ m n. ltb n m);
  less_than_or_equal_to = compare_with leb;
  equals = compare_with ◌==◌;
  plus = add_exact;
  minus = sub_exact;
  times = mul_exact;
  abs = λ a. a;
  decimal_places = places_exact;
  round_half_up = round_with half_up;
  round_down = round_with down;
  to_fixed = print_exact;
}
