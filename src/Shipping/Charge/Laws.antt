-- ===== src/Shipping/Charge/Laws.antt =====
-- What the charge is, and that it is always storable.
use mathlib.Core.Path.{subst}
use scos.Prelude.{ℕ, ◌+◌, ◌*◌, ◌/◌, ◌^◌, ◌≤◌, ◌<◌, ◌≡◌, ◌∙◌, ap, some, [], ◌∷◌, arith, sum_by, All}
use scos.Decimal.{Decimals, IsExact, precision}
use scos.Numeral.{Numerals}
use scos.Shared.Errors.{ok}
use scos.Shared.Money.{Money, money_max_cents, unit_weight_kg, shipping_rate_per_kg_km}
use scos.Shared.Money.Laws.{Cents, round_to_cents-Cents}
use scos.Shipping.Allocation.{WarehouseAllocation, ShippingPlan}
use scos.Shipping.Allocation.Loop.{quantity_of}
use scos.Shipping.Charge.{
  per_unit_km, contribution, cost_from, unrounded_shipping_cost, shipping_cost_for,
}

units-per_unit_km :
    {D : Type 0} ⦃d : Decimals D⦄ (x : IsExact D) → x.units 5 (per_unit_km {D = D}) ≡ some 365
unfolding per_unit_km unit_weight_kg shipping_rate_per_kg_km
units-per_unit_km x =
    x.times-units _ _ 3 2 365 1 (x.units-decimal 365 3) (x.units-decimal 1 2) (omega arith)

pub units-zero :
    {D : Type 0} ⦃d : Decimals D⦄ (x : IsExact D) (s : ℕ) → x.units s (d.decimal 0 0) ≡ some 0
units-zero ⦃d⦄ x s =
    let scale : 0 + s ≡ s = omega arith in
    let none_of : 0 * 10 ^ s ≡ 0 = omega arith in
    subst (λ u. x.units u (d.decimal 0 0) ≡ some 0) scale
      (x.units-rescale (d.decimal 0 0) 0 s 0 (x.units-decimal 0 0) ∙ ap some none_of)

module _ {N D : Type 0} ⦃d : Decimals D⦄ ⦃t : Numerals N D⦄ (x : IsExact D) where
  open x use {units}

  pub units-contribution :
      (a : WarehouseAllocation N) (s m : ℕ)
      → units s (t.of_number a.distance_km) ≡ some m
      → 365 * a.quantity < 10 ^ precision
      → 365 * a.quantity * m < 10 ^ precision
      → units (5 + s) (contribution a) ≡ some (365 * a.quantity * m)
  unfolding contribution
  units-contribution a s m h l l' =
      x.times-units _ _ (5 + 0) s (365 * a.quantity) m
        (x.times-units _ _ 5 0 365 a.quantity (units-per_unit_km x) (x.units-decimal a.quantity 0)
          l)
        h l'

  -- The exact sum of quantity times distance, where `g` reads the distances in units of 10 ^ -s km.
  abbrev pub unit_distance : (N → ℕ) → ShippingPlan N → ℕ
  unit_distance g = sum_by (λ a. a.quantity * g a.distance_km)

  module _ (s : ℕ) (g : N → ℕ) where
    abbrev pub ReadBy : WarehouseAllocation N → Type 0
    ReadBy a = units s (t.of_number a.distance_km) ≡ some (g a.distance_km)

    units-cost_from :
        (p : ShippingPlan N) (sum : D) (m : ℕ)
        → units (5 + s) sum ≡ some m
        → All ReadBy p
        → 365 * sum_by quantity_of p < 10 ^ precision
        → m + 365 * unit_distance g p < 10 ^ precision
        → units (5 + s) (cost_from sum p) ≡ some (m + 365 * unit_distance g p)
    unfolding cost_from
    units-cost_from [] sum m h k l l' = h ∙ ap some (omega arith)
    units-cost_from (a ∷ p) sum m h (r, k) l l' =
        let part = units-contribution a s (g a.distance_km) r (omega arith) (omega arith) in
        let next =
          x.plus-units sum (contribution a) (5 + s) m (365 * a.quantity * g a.distance_km) h part
            (omega arith) in
        units-cost_from p (d.plus sum (contribution a)) _ next k (omega arith) (omega arith)
        ∙ ap some (omega arith)

    -- The unrounded cost is exactly 0.00365 times the sum of quantity times distance, as long as
    -- that has at most 40 digits.
    pub unrounded_shipping_cost-exact :
        (p : ShippingPlan N)
        → All ReadBy p
        → 365 * sum_by quantity_of p < 10 ^ precision
        → 365 * unit_distance g p < 10 ^ precision
        → units (5 + s) (unrounded_shipping_cost p) ≡ some (365 * unit_distance g p)
    unfolding unrounded_shipping_cost
    unrounded_shipping_cost-exact p k l l' =
        units-cost_from p (d.decimal 0 0) 0 (units-zero x (5 + s)) k l (omega (arith, l'))
        ∙ ap some (omega arith)

    -- If every distance is read exactly at one scale and the unrounded cost has at most 40 digits, the
    -- charge is 0.00365 times the sum of quantity times distance, rounded once, half up, to cents, as
    -- long as that is storable.
    pub shipping_cost_for-half_up :
        (p : ShippingPlan N)
        → All ReadBy p
        → 365 * sum_by quantity_of p < 10 ^ precision
        → 365 * unit_distance g p < 10 ^ precision
        → (2 * (365 * unit_distance g p) + 10 ^ (3 + s)) / (2 * 10 ^ (3 + s)) ≤ money_max_cents
        → (m : Money D) × (shipping_cost_for p ≡ ok m)
          × Cents x m ((2 * (365 * unit_distance g p) + 10 ^ (3 + s)) / (2 * 10 ^ (3 + s)))
    unfolding shipping_cost_for
    shipping_cost_for-half_up p k l l' le =
        let scale : 5 + s ≡ 2 + (3 + s) = omega arith in
        round_to_cents-Cents x (unrounded_shipping_cost p) (3 + s) (365 * unit_distance g p)
          (subst (λ u. units u (unrounded_shipping_cost p) ≡ some (365 * unit_distance g p)) scale
            (unrounded_shipping_cost-exact p k l l'))
          le
