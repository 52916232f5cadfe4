-- ===== src/Js/Fixed/Laws.antt =====
-- The fixed-point numbers meet `IsIeee`.
use native.Mathlib.Nat.{div-one, div-le_self, div-le_of_le-mul, mul-le-mul, mul-le-mul_right}
use scos.Prelude.{
  ℕ, ◌+◌, ◌*◌, ◌/◌, ◌^◌, ◌≤◌, ◌<◌, ◌≡◌, refl, Bool, true, false, some, leb, ltb, suc, le→leb,
  leb→le, arith, if◌then◌else◌,
}
use scos.Js.{IsIeee, whole}
use scos.Js.Fixed.{
  Fixed, pos, negsuc, unit, size, signed, neg_fixed, add_fixed, sub_fixed, mul_fixed, div_fixed,
  fixed_floats, le_fixed, lt_fixed, max_fixed, min_fixed, sin_fixed, count_fixed, is_whole,
}

abbrev pub within : ℕ → Fixed → Bool
within n x = leb (size x) (n * unit)

size-signed : (x : Fixed) (n : ℕ) → size (signed x n) ≡ n
size-signed (pos a) n = omega arith
size-signed (negsuc a) n = ground arith

size-neg : (x : Fixed) → size (neg_fixed x) ≡ size x
size-neg x = ground arith

within_intro : (n : ℕ) (x : Fixed) → size x ≤ n * unit → within n x ≡ true
within_intro n x h = le→leb (size x) (n * unit) h

pub size-le : (n : ℕ) (x : Fixed) → within n x ≡ true → size x ≤ n * unit
size-le n x h = leb→le (size x) (n * unit) h

within_literal : (m n s : ℕ) → n ≤ m * 10 ^ s → within m (pos (n * unit / 10 ^ s)) ≡ true
within_literal m n s h =
    let scaled : n * unit ≤ 10 ^ s * (m * unit) = omega (arith, mul-le-mul_right unit h) in
    within_intro m (pos (n * unit / 10 ^ s)) (omega (arith, div-le_of_le-mul (10 ^ s) scaled))

literal_nonneg : (n s : ℕ) → le_fixed (whole 0) (pos (n * unit / 10 ^ s)) ≡ true
literal_nonneg n s = ground arith

product_bound : (m n a b : ℕ) → a ≤ m * unit → b ≤ n * unit → a * b / unit ≤ m * n * unit
product_bound m n a b h k = div-le_of_le-mul unit (omega (arith, mul-le-mul h k))

within_mul :
    (m n : ℕ) (x y : Fixed)
    → within m x ≡ true
    → within n y ≡ true
    → m * n ≤ 2 ^ 53
    → within (m * n) (mul_fixed x y) ≡ true
within_mul m n x (pos b) h k _ = within_intro (m * n) (signed x (size x * b / unit)) (
    rw (size-signed x (size x * b / unit))
      (product_bound m n (size x) b (size-le m x h) (omega (arith, size-le n (pos b) k))))
within_mul m n x (negsuc b) h k _ =
    let r = signed x (size x * suc b / unit) in
    within_intro (m * n) (neg_fixed r) (
      rw (size-neg r, size-signed x (size x * suc b / unit))
        (product_bound m n (size x) (suc b) (size-le m x h)
          (omega (arith, size-le n (negsuc b) k))))

within_div :
    (m n : ℕ) (x : Fixed) → within m x ≡ true → 1 ≤ n → within m (div_fixed x (whole n)) ≡ true
within_div m n x h _ =
    let k = size (whole {N = Fixed} n) / unit in
    within_intro m (signed x (size x / k))
      (rw (size-signed x (size x / k)) (omega (arith, size-le m x h, div-le_self (size x) k)))

within_add :
    (m n : ℕ) (x y : Fixed)
    → within m x ≡ true
    → within n y ≡ true
    → m + n ≤ 2 ^ 53
    → within (m + n) (add_fixed x y) ≡ true
within_add m n x y h k _ =
    within_intro (m + n) (add_fixed x y) (ground (arith, size-le m x h, size-le n y k))

within_sub :
    (m n : ℕ) (x y : Fixed)
    → within m x ≡ true
    → within n y ≡ true
    → m + n ≤ 2 ^ 53
    → within (m + n) (sub_fixed x y) ≡ true
within_sub m n x y h k _ =
    within_intro (m + n) (sub_fixed x y) (ground (arith, size-le m x h, size-le n y k))

size-sin : (x : Fixed) → size (sin_fixed x) ≤ unit
size-sin x = rw (size-signed x (if ltb unit (size x) then unit else size x)) (ground arith)

within_of_le :
    (n : ℕ) (x : Fixed)
    → le_fixed (neg_fixed (whole n)) x ≡ true
    → le_fixed x (whole n) ≡ true
    → within n x ≡ true
within_of_le n x h k = within_intro n x (ground (arith, div-one (n * unit)))

max_zero :
    (n : ℕ) (x : Fixed)
    → within n x ≡ true
    → (within n (max_fixed (whole 0) x) ≡ true)
      × (le_fixed (whole 0) (max_fixed (whole 0) x) ≡ true)
max_zero n x h = ground (arith, size-le n x h)

min_one :
    (n : ℕ) (x : Fixed)
    → within n x ≡ true
    → le_fixed (whole 0) x ≡ true
    → (within 1 (min_fixed (whole 1) x) ≡ true)
      × (le_fixed (whole 0) (min_fixed (whole 1) x) ≡ true)
min_one n x h k = ground arith

mul_nonneg :
    (x y : Fixed)
    → true ≡ true
    → true ≡ true
    → le_fixed (whole 0) x ≡ true
    → le_fixed (whole 0) y ≡ true
    → le_fixed (whole 0) (mul_fixed x y) ≡ true
mul_nonneg (pos a) (pos b) _ _ h k = ground arith
mul_nonneg (pos a) (negsuc b) _ _ h k = ground arith
mul_nonneg (negsuc a) y _ _ h k = absurd (ground arith)

sub_lt :
    (x y : Fixed) → true ≡ true → true ≡ true → lt_fixed (sub_fixed x y) (whole 0) ≡ lt_fixed x y
sub_lt x y _ _ = ground arith

sub_gt :
    (x y : Fixed) → true ≡ true → true ≡ true → lt_fixed (whole 0) (sub_fixed x y) ≡ lt_fixed y x
sub_gt x y _ _ = ground arith

lt_irrefl : (x : Fixed) → lt_fixed x x ≡ false
lt_irrefl x = ground arith

lt_trans : (x y z : Fixed) → lt_fixed x y ≡ true → lt_fixed y z ≡ true → lt_fixed x z ≡ true
lt_trans x y z h k = ground arith

lt_weak :
    (x y z : Fixed)
    → true ≡ true
    → true ≡ true
    → true ≡ true
    → lt_fixed x z ≡ true
    → lt_fixed y z ≡ false
    → lt_fixed x y ≡ true
lt_weak x y z _ _ _ h k = ground arith

count_of_safe :
    (x : Fixed)
    → is_whole x ≡ true
    → le_fixed (whole 0) x ≡ true
    → (n : ℕ) × (count_fixed x ≡ some n)
count_of_safe (pos a) h k = (a / unit, ground arith)
count_of_safe (negsuc a) h k = absurd (ground arith)

count_pos : (x : Fixed) (n : ℕ) → count_fixed x ≡ some n → lt_fixed (whole 0) x ≡ true → 1 ≤ n
count_pos (pos a) n h k = ground arith
count_pos (negsuc a) n h k = cc

count_le : (x : Fixed) (n k : ℕ) → count_fixed x ≡ some n → le_fixed x (whole k) ≡ true → n ≤ k
count_le (pos a) n k h l = ground (arith, div-one (k * unit))
count_le (negsuc a) n k h l = cc

le_of_lt : (x y : Fixed) → lt_fixed x y ≡ true → le_fixed x y ≡ true
le_of_lt x y h = ground arith

safe_of_count :
    (x : Fixed) (n : ℕ)
    → count_fixed x ≡ some n
    → (is_whole x ≡ true) × (◌≡◌ {A = Bool} true true) × (le_fixed (whole 0) x ≡ true)
safe_of_count (pos a) n h = (ground arith, refl, ground arith)
safe_of_count (negsuc a) n h = cc

lt_of_count_pos : (x : Fixed) (n : ℕ) → count_fixed x ≡ some n → 1 ≤ n → lt_fixed (whole 0) x ≡ true
lt_of_count_pos (pos a) n h k = ground arith
lt_of_count_pos (negsuc a) n h k = cc

le_of_count :
    (x : Fixed) (n k : ℕ)
    → count_fixed x ≡ some n
    → n ≤ k
    → k < 2 ^ 53
    → le_fixed x (whole k) ≡ true
le_of_count (pos a) n k h l _ = ground (arith, div-one (k * unit))
le_of_count (negsuc a) n k h l _ = cc

count_literal : (n : ℕ) → n < 2 ^ 53 → count_fixed (whole n) ≡ some n
count_literal n h = ground (arith, div-one (n * unit))

count_add :
    (x y : Fixed) (m n : ℕ)
    → count_fixed x ≡ some m
    → count_fixed y ≡ some n
    → m + n < 2 ^ 53
    → count_fixed (add_fixed x y) ≡ some (m + n)
count_add (pos a) (pos b) m n h k _ = ground arith
count_add (pos a) (negsuc b) m n h k _ = cc
count_add (negsuc a) y m n h k _ = cc

eq_of_count :
    (x y : Fixed) (n : ℕ)
    → count_fixed x ≡ some n
    → count_fixed y ≡ some n
    → fixed_floats.eq x y ≡ true
eq_of_count (pos a) (pos b) n h k = ground arith
eq_of_count (pos a) (negsuc b) n h k = cc
eq_of_count (negsuc a) y n h k = cc

-- The laws, at the fixed-point numbers.
pub Fixed-IsIeee : IsIeee Fixed
Fixed-IsIeee = record {
  is_within = within;
  is_finite_of_within = λ n x h. refl;
  within_weaken = λ m n x h k. within_intro n x (omega (arith, size-le m x h));
  within_literal = λ m n s h _. within_literal m n s h;
  within_pi = refl;
  within_of_le = λ n x h k _. within_of_le n x h k;
  within_add = within_add;
  within_sub = within_sub;
  within_mul = within_mul;
  within_div = within_div;
  within_sin = λ x _. within_intro 1 (sin_fixed x) (omega (arith, size-sin x));
  within_cos = λ x _. refl;
  max_zero = max_zero;
  min_one = min_one;
  sqrt_unit = λ x h k. (h, k);
  asin_unit = λ x h k. (within_intro 2 x (omega (arith, size-le 1 x h)), k);
  mul_nonneg = mul_nonneg;
  literal_nonneg = literal_nonneg;
  sub_lt = sub_lt;
  sub_gt = sub_gt;
  lt_irrefl = lt_irrefl;
  lt_trans = lt_trans;
  lt_weak = lt_weak;
  count_of_safe = count_of_safe;
  count_pos = count_pos;
  count_le = count_le;
  le_of_lt = le_of_lt;
  safe_of_count = safe_of_count;
  lt_of_count_pos = lt_of_count_pos;
  le_of_count = le_of_count;
  count_literal = count_literal;
  count_add = count_add;
  eq_of_count = eq_of_count;
}

pub is_within-Fixed : (n : ℕ) (x : Fixed) → Fixed-IsIeee.is_within n x ≡ within n x
unfolding Fixed-IsIeee
is_within-Fixed n x = refl
