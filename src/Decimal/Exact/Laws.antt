-- ===== src/Decimal/Exact/Laws.antt =====
-- The exact decimals meet `IsExact`.
use Prim.Native.Nat.{max}
use native.Mathlib.Nat.{mul-lt-mul_of_pos_right, div-eq_of_lt-le, mul-div-mul_right, mul-div_left}
use scos.Prelude.{
  ℕ, ◌+◌, ◌*◌, ◌-◌, ◌^◌, ◌≤◌, ◌<◌, ◌≡◌, refl, sym, ap, ◌∙◌, Bool, true, false, some, ltb, leb, ◌==◌,
  arith, pow-add_ten, pow_ten_pos, le→leb, leb→le, Bool-cases, inl, inr,
}
use scos.Decimal.{IsExact, precision}
use scos.Decimal.Digits.{fixed_text}
use scos.Decimal.Exact.{
  Exact, finite, below_zero, not_finite, exact_decimals, exact_units, scaled, half_up, down,
  is_below, compare_with, add_exact, sub_exact, mul_exact, places_exact, round_with, finite_exact,
  print_exact,
}

scaled-add : (m t u k : ℕ) → t ≤ u → scaled m t (u + k) ≡ scaled m t u * 10 ^ k
scaled-add m t u k h =
    let e : u + k - t ≡ (u - t) + k = omega arith in rw (e, pow-add_ten (u - t) k) (omega arith)

read : (m t s n : ℕ) → exact_units s (finite m t) ≡ some n → (t ≤ s) × (n ≡ scaled m t s)
read m t s n e = ground arith

read_back : (m t s : ℕ) → t ≤ s → exact_units s (finite m t) ≡ some (scaled m t s)
read_back m t s h = rw (le→leb t s h)

scaled_self : (m s : ℕ) → scaled m s s ≡ m
scaled_self m s = let e : s - s ≡ 0 = omega arith in rw e (omega arith)

scaled_at : (m t v s k : ℕ) → t ≤ v → s ≡ v + k → scaled m t s ≡ scaled m t v * 10 ^ k
scaled_at m t v s k h e = rw e (scaled-add m t v k h)

pub read_self : (m s : ℕ) → exact_units s (finite m s) ≡ some m
read_self m s = rw (le→leb s s (omega arith), scaled_self m s)

-- Two readings at one scale are the aligned digits, multiplied by one power of ten.
align :
    (a t b u s m n : ℕ)
    → exact_units s (finite a t) ≡ some m
    → exact_units s (finite b u) ≡ some n
    → (k : ℕ) × (s ≡ max t u + k)
      × (m ≡ scaled a t (max t u) * 10 ^ k)
      × (n ≡ scaled b u (max t u) * 10 ^ k)
align a t b u s m n h h' =
    let (t_le, me) = read a t s m h in
    let (u_le, ne) = read b u s n h' in
    let k = s - max t u in
    let se : s ≡ max t u + k = omega arith in
    (
      k,
      se,
      me ∙ scaled_at a t (max t u) s k (omega arith) se,
      ne ∙ scaled_at b u (max t u) s k (omega arith) se,
    )

lt-mul : (x y k : ℕ) → 0 < k → x < y → x * k < y * k
lt-mul x y k h lt = mul-lt-mul_of_pos_right lt h

ltb-mul : (x y k : ℕ) → 0 < k → ltb x y ≡ ltb (x * k) (y * k)
ltb-mul x y k h = ground (arith, lt-mul x y k h, lt-mul y x k h)

leb-mul : (x y k : ℕ) → 0 < k → leb x y ≡ leb (x * k) (y * k)
leb-mul x y k h = ground (arith, lt-mul x y k h, lt-mul y x k h)

==-mul : (x y k : ℕ) → 0 < k → (x == y) ≡ (x * k == y * k)
==-mul x y k h = ground (arith, lt-mul x y k h, lt-mul y x k h)

units-rescale :
    (a : Exact) (s k n : ℕ) → exact_units s a ≡ some n → exact_units (s + k) a ≡ some (n * 10 ^ k)
units-rescale (finite m t) s k n h =
    let (t_le, e) = read m t s n h in
    rw (read_back m t (s + k) (omega arith), scaled-add m t s k t_le, e)
units-rescale below_zero s k n h = cc
units-rescale not_finite s k n h = cc

module _ (f : ℕ → ℕ → Bool) (invariant : (x y k : ℕ) → 0 < k → f x y ≡ f (x * k) (y * k)) where
  compare_with-units :
      (a b : Exact) (s m n : ℕ)
      → exact_units s a ≡ some m
      → exact_units s b ≡ some n
      → compare_with f a b ≡ f m n
  compare_with-units (finite a t) (finite b u) s m n h h' =
      let (k, _, me, ne) = align a t b u s m n h h' in
      rw (me, ne) (invariant _ _ (10 ^ k) (pow_ten_pos k))
  compare_with-units (finite a t) below_zero s m n h h' = cc
  compare_with-units (finite a t) not_finite s m n h h' = cc
  compare_with-units below_zero b s m n h h' = cc
  compare_with-units not_finite b s m n h h' = cc

less_than-units :
    (a b : Exact) (s m n : ℕ)
    → exact_units s a ≡ some m
    → exact_units s b ≡ some n
    → is_below a b ≡ ltb m n
less_than-units (finite a t) b s m n h h' = compare_with-units ltb ltb-mul (finite a t) b s m n h h'
less_than-units below_zero b s m n h h' = cc
less_than-units not_finite b s m n h h' = cc

add_exact-units :
    (a b : Exact) (s m n : ℕ)
    → exact_units s a ≡ some m
    → exact_units s b ≡ some n
    → exact_units s (add_exact a b) ≡ some (m + n)
add_exact-units (finite a t) (finite b u) s m n h h' =
    let (k, se, me, ne) = align a t b u s m n h h' in
    let v = max t u in
    rw
      (
        read_back (scaled a t v + scaled b u v) v s (omega arith),
        scaled_at (scaled a t v + scaled b u v) v v s k (omega arith) se,
        scaled_self (scaled a t v + scaled b u v) v,
      )
      (ap some (omega (arith, me, ne)))
add_exact-units (finite a t) below_zero s m n h h' = cc
add_exact-units (finite a t) not_finite s m n h h' = cc
add_exact-units below_zero b s m n h h' = cc
add_exact-units not_finite b s m n h h' = cc

plus-units :
    (a b : Exact) (s m n : ℕ)
    → exact_units s a ≡ some m
    → exact_units s b ≡ some n
    → m + n < 10 ^ precision
    → exact_units s (add_exact a b) ≡ some (m + n)
plus-units a b s m n h h' _ = add_exact-units a b s m n h h'

plus-within :
    (a b : Exact) (s m n k l : ℕ)
    → exact_units s a ≡ some m
    → exact_units s b ≡ some n
    → m ≤ k * 10 ^ s
    → n ≤ l * 10 ^ s
    → k + l < 10 ^ precision
    → (t : ℕ) × (r : ℕ) × (exact_units t (add_exact a b) ≡ some r) × (r ≤ (k + l) * 10 ^ t)
plus-within a b s m n k l h h' le le' _ = (s, m + n, add_exact-units a b s m n h h', omega arith)

le_of_le-mul : (x y k : ℕ) → 0 < k → x * k ≤ y * k → x ≤ y
le_of_le-mul x y k h le = ground (arith, lt-mul y x k h)

mul_of_sub : (x y k : ℕ) → y ≤ x → (x - y) * k ≡ x * k - y * k
mul_of_sub x y k h = let e : x ≡ (x - y) + y = omega arith in omega (arith, ap (λ (z : ℕ). z * k) e)

regroup : (a b p q : ℕ) → a * b * (p * q) ≡ a * p * (b * q)
regroup a b p q = omega arith

minus-units :
    (a b : Exact) (s m n : ℕ)
    → exact_units s a ≡ some m
    → exact_units s b ≡ some n
    → n ≤ m
    → m < 10 ^ precision
    → exact_units s (sub_exact a b) ≡ some (m - n)
minus-units (finite a t) (finite b u) s m n h h' le _ =
    let (k, se, me, ne) = align a t b u s m n h h' in
    let v = max t u in
    let x = scaled a t v in
    let y = scaled b u v in
    let ordered : y ≤ x = le_of_le-mul y x (10 ^ k) (pow_ten_pos k) (omega (arith, me, ne, le)) in
    let same : ltb x y ≡ false = ground arith in
    rw
      (
        same,
        read_back (x - y) v s (omega arith),
        scaled_at (x - y) v v s k (omega arith) se,
        scaled_self (x - y) v,
      )
      (ap some (mul_of_sub x y (10 ^ k) ordered ∙ omega (arith, me, ne)))
minus-units (finite a t) below_zero s m n h h' _ _ = cc
minus-units (finite a t) not_finite s m n h h' _ _ = cc
minus-units below_zero b s m n h h' _ _ = cc
minus-units not_finite b s m n h h' _ _ = cc

minus_negative :
    (a b : Exact) (s m n : ℕ)
    → exact_units s a ≡ some m
    → exact_units s b ≡ some n
    → m < n
    → is_below (sub_exact a b) (finite 0 0) ≡ true
minus_negative (finite a t) (finite b u) s m n h h' lt =
    let test = less_than-units (finite a t) (finite b u) s m n h h' in
    let below : ltb m n ≡ true = ground arith in rw (test ∙ below)
minus_negative (finite a t) below_zero s m n h h' _ = cc
minus_negative (finite a t) not_finite s m n h h' _ = cc
minus_negative below_zero b s m n h h' _ = cc
minus_negative not_finite b s m n h h' _ = cc

times-units :
    (a b : Exact) (s t m n : ℕ)
    → exact_units s a ≡ some m
    → exact_units t b ≡ some n
    → m * n < 10 ^ precision
    → exact_units (s + t) (mul_exact a b) ≡ some (m * n)
times-units (finite a t) (finite b u) s s' m n h h' _ =
    let (t_le, me) = read a t s m h in
    let (u_le, ne) = read b u s' n h' in
    let e : s + s' - (t + u) ≡ (s - t) + (s' - u) = omega arith in
    rw (read_back (a * b) (t + u) (s + s') (omega arith), e, pow-add_ten (s - t) (s' - u), me, ne)
      (ap some (regroup a b (10 ^ (s - t)) (10 ^ (s' - u))))
times-units (finite a t) below_zero s s' m n h h' _ = cc
times-units (finite a t) not_finite s s' m n h h' _ = cc
times-units below_zero b s s' m n h h' _ = cc
times-units not_finite b s s' m n h h' _ = cc

decimal_places_of_units : (a : Exact) (s n : ℕ) → exact_units s a ≡ some n → places_exact a ≤ s
decimal_places_of_units (finite m t) s n h = (read m t s n h).0
decimal_places_of_units below_zero s n h = cc
decimal_places_of_units not_finite s n h = cc

units_of_decimal_places :
    (a : Exact) (p s n : ℕ)
    → exact_units s a ≡ some n
    → places_exact a ≤ p
    → (m : ℕ) × (exact_units p a ≡ some m)
units_of_decimal_places (finite m t) p s n h le = (scaled m t p, read_back m t p le)
units_of_decimal_places below_zero p s n h le = cc
units_of_decimal_places not_finite p s n h le = cc

units_of_finite :
    (a : Exact)
    → finite_exact a ≡ true
    → is_below a (finite 0 0) ≡ false
    → (n : ℕ) × (exact_units (places_exact a) a ≡ some n)
units_of_finite (finite m t) h l = (m, read_self m t)
units_of_finite below_zero h l = cc
units_of_finite not_finite h l = cc

is_finite_of_units : (a : Exact) (s n : ℕ) → exact_units s a ≡ some n → finite_exact a ≡ true
is_finite_of_units (finite m t) s n h = refl
is_finite_of_units below_zero s n h = refl
is_finite_of_units not_finite s n h = cc

-- A rounding that is exact on whole units, and does not depend on the power that is dropped.
module _ (f : ℕ → ℕ → ℕ) (exact : (m k : ℕ) → 0 < k → f (m * k) k ≡ m)
    (cancels : (m k j : ℕ) → 0 < j → f (m * j) (k * j) ≡ f m k) where
  round_with-units :
      (a : Exact) (p s n : ℕ)
      → exact_units (p + s) a ≡ some n
      → exact_units p (round_with f p a) ≡ some (f n (10 ^ s))
  round_with-units (finite m t) p s n h = elim (Bool-cases (leb t p)) [
    | inl coarse ↦
        let le = leb→le t p coarse in
        rw (coarse, coarse, (read m t (p + s) n h).1, scaled-add m t p s le)
          (ap some (sym (exact (scaled m t p) (10 ^ s) (pow_ten_pos s))))
    | inr fine ↦
        let lt : p < t = ground arith in
        let t_le = (read m t (p + s) n h).0 in
        let split : s ≡ (t - p) + (p + s - t) = omega arith in
        let powers : 10 ^ s ≡ 10 ^ (t - p) * 10 ^ (p + s - t) =
          ap (◌^◌ 10) split ∙ pow-add_ten (t - p) (p + s - t) in
        rw fine (
          read_self (f m (10 ^ (t - p))) p
          ∙ ap some (
              rw (powers, (read m t (p + s) n h).1)
                (sym (cancels m (10 ^ (t - p)) (10 ^ (p + s - t)) (pow_ten_pos (p + s - t))))))
  ]
  round_with-units below_zero p s n h = cc
  round_with-units not_finite p s n h = cc

half_up_exact : (m k : ℕ) → 0 < k → half_up (m * k) k ≡ m
half_up_exact m k h = div-eq_of_lt-le {k = m} (2 * k) (omega arith) (omega arith)

half_up_cancels : (m k j : ℕ) → 0 < j → half_up (m * j) (k * j) ≡ half_up m k
half_up_cancels m k j h =
    let e : 2 * (m * j) + k * j ≡ (2 * m + k) * j = omega arith in
    let e' : 2 * (k * j) ≡ 2 * k * j = omega arith in
    rw (e, e') (mul-div-mul_right (2 * m + k) (2 * k) h)

-- The laws, at the exact decimals.
print_exact-units :
    (a : Exact) (p n : ℕ) → exact_units p a ≡ some n → print_exact p a ≡ fixed_text p n
print_exact-units (finite m t) p n h = ground arith
print_exact-units below_zero p n h = cc
print_exact-units not_finite p n h = cc

pub Exact-IsExact : IsExact Exact
Exact-IsExact = record {
  units = exact_units;
  units-decimal = read_self;
  units-rescale = units-rescale;
  is_finite_of_units = is_finite_of_units;
  decimal_places_of_units = decimal_places_of_units;
  units_of_decimal_places = units_of_decimal_places;
  units_of_finite = units_of_finite;
  less_than-units = less_than-units;
  greater_than-units = compare_with-units (λ m n. ltb n m) (λ x y k h. ltb-mul y x k h);
  less_than_or_equal_to-units = compare_with-units leb leb-mul;
  equals-units = compare_with-units ◌==◌ ==-mul;
  plus-units = plus-units;
  plus-within = plus-within;
  minus-units = minus-units;
  minus_negative = minus_negative;
  times-units = times-units;
  abs-units = λ a s n h. h;
  round_half_up-units = round_with-units half_up half_up_exact half_up_cancels;
  round_down-units =
      round_with-units down (λ m k h. mul-div_left m h) (λ m k j h. mul-div-mul_right m k h);
  to_fixed-units = λ a p n h _. print_exact-units a p n h;
}

pub units-Exact : (s : ℕ) (a : Exact) → Exact-IsExact.units s a ≡ exact_units s a
unfolding Exact-IsExact
units-Exact s a = refl
