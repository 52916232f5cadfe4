-- ===== src/Js.antt =====
-- The JavaScript values that the code computes with and has no source for: double-precision numbers
-- and Math. `Floats` holds the operations that the code calls, `IsIeee` what it relies on of the
-- language's documented behaviour.
pub mod Fixed
use scos.Prelude.{ℕ, ◌+◌, ◌*◌, ◌^◌, ◌≤◌, ◌<◌, ◌≡◌, Bool, true, false, Option, some, none, Text, ap}

pub record Floats (N : Type 0) : Type 0 where
  -- the number literal with the digits `n`, the last `s` of them behind the point
  pub literal : ℕ → ℕ → N
  pub pi : N
  -- `<=`, `<` and `===`
  pub le : N → N → Bool
  pub lt : N → N → Bool
  pub eq : N → N → Bool
  pub is_finite : N → Bool
  pub is_safe_integer : N → Bool
  -- the value of a safe integer that is not negative
  pub count : N → Option ℕ
  pub neg : N → N
  pub add : N → N → N
  pub sub : N → N → N
  pub mul : N → N → N
  pub div : N → N → N
  pub max : N → N → N
  pub min : N → N → N
  pub sin : N → N
  pub cos : N → N
  pub asin : N → N
  pub sqrt : N → N

-- A value of unknown type, as far as a schema for numbers or strings tells values apart.
pub data JsValue (N : Type 0) : Type 0 where
  number : N → JsValue N
  text : Text → JsValue N
  other : JsValue N

module _ {N : Type 0} ⦃f : Floats N⦄ where
  abbrev pub whole : ℕ → N
  whole n = f.literal n 0

  -- A number that has passed an integer check, as a natural number.
  abbrev pub natural : N → ℕ
  natural x = elim (f.count x) [ some n ↦ n | none ↦ 0 ]

  pub natural_of_count : (x : N) (n : ℕ) → f.count x ≡ some n → natural x ≡ n
  natural_of_count x n c = ap (λ o. elim o [ some m ↦ m | none ↦ 0 ]) c

-- `is_within n x`: `x` is finite and its absolute value is at most `n`.
pub record IsIeee (N : Type 0) ⦃f : Floats N⦄ : Type 0 where
  pub is_within : ℕ → N → Bool
  pub is_finite_of_within : (n : ℕ) (x : N) → is_within n x ≡ true → f.is_finite x ≡ true
  pub within_weaken : (m n : ℕ) (x : N) → is_within m x ≡ true → m ≤ n → is_within n x ≡ true
  pub within_literal :
      (m n s : ℕ) → n ≤ m * 10 ^ s → m ≤ 2 ^ 53 → is_within m (f.literal n s) ≡ true
  pub within_pi : is_within 4 f.pi ≡ true
  pub within_of_le :
      (n : ℕ) (x : N)
      → f.le (f.neg (whole n)) x ≡ true
      → f.le x (whole n) ≡ true
      → n ≤ 2 ^ 53
      → is_within n x ≡ true
  -- Rounding is monotone and keeps whole numbers up to 2 ^ 53.
  pub within_add :
      (m n : ℕ) (x y : N)
      → is_within m x ≡ true
      → is_within n y ≡ true
      → m + n ≤ 2 ^ 53
      → is_within (m + n) (f.add x y) ≡ true
  pub within_sub :
      (m n : ℕ) (x y : N)
      → is_within m x ≡ true
      → is_within n y ≡ true
      → m + n ≤ 2 ^ 53
      → is_within (m + n) (f.sub x y) ≡ true
  pub within_mul :
      (m n : ℕ) (x y : N)
      → is_within m x ≡ true
      → is_within n y ≡ true
      → m * n ≤ 2 ^ 53
      → is_within (m * n) (f.mul x y) ≡ true
  pub within_div :
      (m n : ℕ) (x : N) → is_within m x ≡ true → 1 ≤ n → is_within m (f.div x (whole n)) ≡ true
  pub within_sin : (x : N) → f.is_finite x ≡ true → is_within 1 (f.sin x) ≡ true
  pub within_cos : (x : N) → f.is_finite x ≡ true → is_within 1 (f.cos x) ≡ true
  -- Math.max and Math.min of finite numbers
  pub max_zero :
      (n : ℕ) (x : N)
      → is_within n x ≡ true
      → (is_within n (f.max (whole 0) x) ≡ true) × (f.le (whole 0) (f.max (whole 0) x) ≡ true)
  pub min_one :
      (n : ℕ) (x : N)
      → is_within n x ≡ true
      → f.le (whole 0) x ≡ true
      → (is_within 1 (f.min (whole 1) x) ≡ true) × (f.le (whole 0) (f.min (whole 1) x) ≡ true)
  pub sqrt_unit :
      (x : N)
      → is_within 1 x ≡ true
      → f.le (whole 0) x ≡ true
      → (is_within 1 (f.sqrt x) ≡ true) × (f.le (whole 0) (f.sqrt x) ≡ true)
  pub asin_unit :
      (x : N)
      → is_within 1 x ≡ true
      → f.le (whole 0) x ≡ true
      → (is_within 2 (f.asin x) ≡ true) × (f.le (whole 0) (f.asin x) ≡ true)
  pub mul_nonneg :
      (x y : N)
      → f.is_finite x ≡ true
      → f.is_finite y ≡ true
      → f.le (whole 0) x ≡ true
      → f.le (whole 0) y ≡ true
      → f.le (whole 0) (f.mul x y) ≡ true
  pub literal_nonneg : (n s : ℕ) → f.le (whole 0) (f.literal n s) ≡ true
  -- Comparison of finite numbers, and the sign of their difference
  pub sub_lt :
      (x y : N)
      → f.is_finite x ≡ true
      → f.is_finite y ≡ true
      → f.lt (f.sub x y) (whole 0) ≡ f.lt x y
  pub sub_gt :
      (x y : N)
      → f.is_finite x ≡ true
      → f.is_finite y ≡ true
      → f.lt (whole 0) (f.sub x y) ≡ f.lt y x
  pub lt_irrefl : (x : N) → f.lt x x ≡ false
  pub lt_trans : (x y z : N) → f.lt x y ≡ true → f.lt y z ≡ true → f.lt x z ≡ true
  -- two numbers that are not NaN and that neither is below the other have the same comparisons
  pub lt_weak :
      (x y z : N)
      → f.is_finite x ≡ true
      → f.is_finite y ≡ true
      → f.is_finite z ≡ true
      → f.lt x z ≡ true
      → f.lt y z ≡ false
      → f.lt x y ≡ true
  -- Safe integers
  pub count_of_safe :
      (x : N)
      → f.is_safe_integer x ≡ true
      → f.le (whole 0) x ≡ true
      → (n : ℕ) × (f.count x ≡ some n)
  pub count_pos : (x : N) (n : ℕ) → f.count x ≡ some n → f.lt (whole 0) x ≡ true → 1 ≤ n
  pub count_le : (x : N) (n k : ℕ) → f.count x ≡ some n → f.le x (whole k) ≡ true → n ≤ k
  pub le_of_lt : (x y : N) → f.lt x y ≡ true → f.le x y ≡ true
  -- what a count says back
  pub safe_of_count :
      (x : N) (n : ℕ)
      → f.count x ≡ some n
      → (f.is_safe_integer x ≡ true) × (f.is_finite x ≡ true) × (f.le (whole 0) x ≡ true)
  pub lt_of_count_pos : (x : N) (n : ℕ) → f.count x ≡ some n → 1 ≤ n → f.lt (whole 0) x ≡ true
  pub le_of_count :
      (x : N) (n k : ℕ) → f.count x ≡ some n → n ≤ k → k < 2 ^ 53 → f.le x (whole k) ≡ true
  pub count_literal : (n : ℕ) → n < 2 ^ 53 → f.count (whole n) ≡ some n
  -- addition of safe integers is exact, and equal ones are `===`
  pub count_add :
      (x y : N) (m n : ℕ)
      → f.count x ≡ some m
      → f.count y ≡ some n
      → m + n < 2 ^ 53
      → f.count (f.add x y) ≡ some (m + n)
  pub eq_of_count : (x y : N) (n : ℕ) → f.count x ≡ some n → f.count y ≡ some n → f.eq x y ≡ true
