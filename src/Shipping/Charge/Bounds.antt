-- ===== src/Shipping/Charge/Bounds.antt =====
-- Bounds on the charge.
use native.Mathlib.Nat.{div-lt_iff_lt-mul, mul-le-mul, mul-le-mul_left, mul-le-mul_right}
use mathlib.Core.Path.{subst}
use scos.Prelude.{
  ℕ, ◌+◌, ◌*◌, ◌/◌, ◌^◌, ◌≤◌, ◌<◌, ◌≡◌, some, [], ◌∷◌, arith, sum_by, All, pow_ten_pos, pow-add_ten,
}
use scos.Js.{Floats, IsIeee}
use scos.Decimal.{Decimals, IsExact, precision}
use scos.Numeral.{Numerals, IsNumeral}
use scos.Shared.Errors.{ok}
use scos.Shared.Money.{Money, max_quantity}
use scos.Shared.Money.Laws.{Cents, round_to_cents-Cents}
use scos.Shipping.Allocation.{WarehouseAllocation, ShippingPlan}
use scos.Shipping.Allocation.Loop.{quantity_of}
use scos.Shipping.Charge.{contribution, cost_from, unrounded_shipping_cost, shipping_cost_for}
use scos.Shipping.Charge.Laws.{units-contribution, units-zero}
use scos.Shipping.Distance.Bounds.{IsLength, max_distance_km}

module _ {N D : Type 0} ⦃f : Floats N⦄ ⦃d : Decimals D⦄ ⦃t : Numerals N D⦄ (ieee : IsIeee N)
    (x : IsExact D) (numeral : IsNumeral N D ieee x) where
  open x use {units}

  -- Not negative, and at most `n`.
  abbrev pub IsAtMost : ℕ → D → Type 0
  IsAtMost n a = (s : ℕ) × (m : ℕ) × (units s a ≡ some m) × (m ≤ n * 10 ^ s)

  -- 94 dollars bound the charge for a unit over the longest distance.
  IsAtMost-contribution :
      (a : WarehouseAllocation N)
      → IsLength ieee max_distance_km a.distance_km
      → a.quantity ≤ max_quantity
      → IsAtMost (94 * a.quantity) (contribution a)
  IsAtMost-contribution a (near, nonneg) le =
      let (s, m, u, bound, digits) =
        numeral.units_of_number max_distance_km a.distance_km near nonneg (omega arith) in
      let product = mul-le-mul_left a.quantity bound in
      let large = mul-le-mul le digits in
      (
        5 + s,
        365 * a.quantity * m,
        units-contribution x a s m u (omega arith) (omega (arith, large)),
        rw (pow-add_ten 5 s) (omega (arith, product)),
      )

  IsAtMost-plus :
      (a b : D) (k l : ℕ)
      → IsAtMost k a
      → IsAtMost l b
      → k + l < 10 ^ precision
      → IsAtMost (k + l) (d.plus a b)
  IsAtMost-plus a b k l (s, m, u, h) (r, n, v, h') le =
      let scale : r + s ≡ s + r = omega arith in
      let v' = subst (λ e. units e b ≡ some (n * 10 ^ s)) scale (x.units-rescale b r s n v) in
      x.plus-within a b (s + r) (m * 10 ^ r) (n * 10 ^ s) k l (x.units-rescale a s r m u) v'
        (rw (pow-add_ten s r) (omega (arith, mul-le-mul_right (10 ^ r) h)))
        (rw (pow-add_ten s r) (omega (arith, mul-le-mul_right (10 ^ s) h'))) le

  IsAtMost-cost_from :
      (p : ShippingPlan N) (sum : D) (n : ℕ)
      → IsAtMost n sum
      → All (λ a. IsLength ieee max_distance_km a.distance_km) p
      → sum_by quantity_of p ≤ max_quantity
      → n + 94 * sum_by quantity_of p ≤ 94 * max_quantity
      → IsAtMost (n + 94 * sum_by quantity_of p) (cost_from sum p)
  unfolding cost_from
  IsAtMost-cost_from [] sum n h k l l' = let same : n + 94 * 0 ≡ n = omega arith in rw same h
  IsAtMost-cost_from (a ∷ p) sum n h (r, k) l l' =
      let part = IsAtMost-contribution a r (omega arith) in
      let next = IsAtMost-plus sum (contribution a) n (94 * a.quantity) h part (omega arith) in
      let whole_sum : n + 94 * (a.quantity + sum_by quantity_of p)
          ≡ n + 94 * a.quantity + 94 * sum_by quantity_of p =
        omega arith in
      rw whole_sum (
        IsAtMost-cost_from p (d.plus sum (contribution a)) (n + 94 * a.quantity) next k
          (omega arith) (omega arith))

  -- The charge for a plan of at most the supported quantity over lengths of at most 25,488 km
  -- exists, and is at most 94 dollars for each unit.
  pub shipping_cost_for-Cents :
      (p : ShippingPlan N)
      → All (λ a. IsLength ieee max_distance_km a.distance_km) p
      → sum_by quantity_of p ≤ max_quantity
      → (m : Money D) × (c : ℕ) × (shipping_cost_for p ≡ ok m)
        × Cents x m c
        × (c ≤ 9400 * sum_by quantity_of p)
  unfolding shipping_cost_for unrounded_shipping_cost
  shipping_cost_for-Cents p near le =
      let start : IsAtMost 0 (d.decimal 0 0) = (0, 0, units-zero x 0, omega arith) in
      let (s, n, u, bound) = IsAtMost-cost_from p (d.decimal 0 0) 0 start near le (omega arith) in
      let q = sum_by quantity_of p in
      let scale : s + 2 ≡ 2 + s = omega arith in
      let at_cents =
        subst (λ e. units e (unrounded_shipping_cost p) ≡ some (n * 10 ^ 2)) scale
          (x.units-rescale _ s 2 n u) in
      let double : 0 < 2 * 10 ^ s = omega (arith, pow_ten_pos s) in
      let cents : (2 * (n * 10 ^ 2) + 10 ^ s) / (2 * 10 ^ s) ≤ 9400 * q = omega (
        arith,
        (div-lt_iff_lt-mul {x = 2 * (n * 10 ^ 2) + 10 ^ s} {y = 9400 * q + 1} double).1
            (omega (arith, bound, pow_ten_pos s)),
      ) in
      let (m, e, c) =
        round_to_cents-Cents x (unrounded_shipping_cost p) s (n * 10 ^ 2) at_cents
          (omega (arith, cents, le)) in
      (m, _, e, c, cents)
