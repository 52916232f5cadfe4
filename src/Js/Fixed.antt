-- ===== src/Js/Fixed.antt =====
-- Fixed-point numbers in millionths, with crude trigonometry: an instance of `Floats` at which the
-- witnesses and the tests run.
pub mod Laws
use scos.Prelude.{
  ℕ, zero, suc, ◌+◌, ◌-◌, ◌*◌, ◌/◌, ◌%◌, ◌^◌, Bool, true, false, Option, some, none, ltb, leb, ◌==◌,
  if◌then◌else◌,
}
use scos.Js.{Floats}

abbrev pub unit : ℕ
unit = 1_000_000

-- `negsuc n` is -(n + 1) millionths.
pub data Fixed : Type 0 where
  pos : ℕ → Fixed
  negsuc : ℕ → Fixed

abbrev pub pos_part : Fixed → ℕ
pos_part (pos n) = n
pos_part (negsuc n) = 0

abbrev pub neg_part : Fixed → ℕ
neg_part (pos n) = 0
neg_part (negsuc n) = suc n

abbrev pub size : Fixed → ℕ
size x = pos_part x + neg_part x

-- a - b
abbrev pub sub_ℕ : ℕ → ℕ → Fixed
sub_ℕ a b = if leb b a then pos (a - b) else negsuc (b - a - 1)

abbrev pub add_fixed : Fixed → Fixed → Fixed
add_fixed x y = sub_ℕ (pos_part x + pos_part y) (neg_part x + neg_part y)

abbrev pub sub_fixed : Fixed → Fixed → Fixed
sub_fixed x y = sub_ℕ (pos_part x + neg_part y) (neg_part x + pos_part y)

abbrev pub lt_fixed : Fixed → Fixed → Bool
lt_fixed x y = ltb (pos_part x + neg_part y) (pos_part y + neg_part x)

abbrev pub le_fixed : Fixed → Fixed → Bool
le_fixed x y = leb (pos_part x + neg_part y) (pos_part y + neg_part x)

abbrev pub eq_fixed : Fixed → Fixed → Bool
eq_fixed x y = pos_part x + neg_part y == pos_part y + neg_part x

-- `n` with the sign of the first argument
abbrev pub signed : Fixed → ℕ → Fixed
signed (pos _) n = pos n
signed (negsuc _) n = sub_ℕ 0 n

abbrev pub neg_fixed : Fixed → Fixed
neg_fixed x = sub_ℕ (neg_part x) (pos_part x)

abbrev pub mul_fixed : Fixed → Fixed → Fixed
mul_fixed x (pos b) = signed x (size x * b / unit)
mul_fixed x (negsuc b) = neg_fixed (signed x (size x * suc b / unit))

abbrev pub div_fixed : Fixed → Fixed → Fixed
div_fixed x y = signed x (size x / (size y / unit))

abbrev pub max_fixed : Fixed → Fixed → Fixed
max_fixed x y = if lt_fixed x y then y else x

abbrev pub min_fixed : Fixed → Fixed → Fixed
min_fixed x y = if lt_fixed y x then y else x

-- stands for the sine: the angle, cut off at 1
abbrev pub sin_fixed : Fixed → Fixed
sin_fixed x = signed x (if ltb unit (size x) then unit else size x)

abbrev pub is_whole : Fixed → Bool
is_whole x = size x % unit == 0

abbrev pub count_fixed : Fixed → Option ℕ
count_fixed (pos n) = if n % unit == 0 then some (n / unit) else none
count_fixed (negsuc n) = none

instance abbrev pub fixed_floats : Floats Fixed
fixed_floats = record {
  literal = λ n s. pos (n * unit / 10 ^ s);
  pi = pos 3_141_593;
  le = le_fixed;
  lt = lt_fixed;
  eq = eq_fixed;
  is_finite = λ x. true;
  is_safe_integer = is_whole;
  count = count_fixed;
  neg = neg_fixed;
  add = add_fixed;
  sub = sub_fixed;
  mul = mul_fixed;
  div = div_fixed;
  max = max_fixed;
  min = min_fixed;
  sin = sin_fixed;
  cos = λ x. pos unit;
  asin = λ x. x;
  sqrt = λ x. x;
}
