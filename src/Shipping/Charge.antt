-- ===== src/Shipping/Charge.antt =====
-- `packages/core/src/domain/shipping/shipping.ts`: the combined shipping charge and its limit.
pub mod Laws
pub mod Limit
pub mod Bounds
use scos.Prelude.{ℕ, Bool, List, [], ◌∷◌}
use scos.Decimal.{Decimals}
use scos.Numeral.{Numerals}
use scos.Shared.Errors.{Result}
use scos.Shared.Money.{
  Money, from_decimal, round_to_cents, money_scale, unit_weight_kg, shipping_rate_per_kg_km,
  shipping_limit_ratio,
}
use scos.Shipping.Allocation.{WarehouseAllocation, ShippingPlan}

-- `UNIT_WEIGHT_KG.times(SHIPPING_RATE_PER_KG_KM)`
unfoldable pub per_unit_km : {D : Type 0} ⦃d : Decimals D⦄ → D
per_unit_km ⦃d⦄ = d.times unit_weight_kg shipping_rate_per_kg_km

module _ {N D : Type 0} ⦃d : Decimals D⦄ where
  module _ ⦃t : Numerals N D⦄ where
    -- the callback of `reduce`
    unfoldable pub contribution : WarehouseAllocation N → D
    unfolding per_unit_km
    contribution a =
        d.times (d.times per_unit_km (d.decimal a.quantity 0)) (t.of_number a.distance_km)

    -- `allocations.reduce(…)` from a sum so far
    unfoldable pub cost_from : D → ShippingPlan N → D
    unfolding contribution
    cost_from sum [] = sum
    cost_from sum (a ∷ rest) = cost_from (d.plus sum (contribution a)) rest

    -- `unroundedShippingCost`
    unfoldable pub unrounded_shipping_cost : ShippingPlan N → D
    unfolding cost_from
    unrounded_shipping_cost allocations = cost_from (d.decimal 0 0) allocations

    -- `shippingCostFor`
    unfoldable pub shipping_cost_for : ShippingPlan N → Result (Money D)
    unfolding unrounded_shipping_cost round_to_cents
    shipping_cost_for allocations = round_to_cents (unrounded_shipping_cost allocations)

module _ {D : Type 0} ⦃d : Decimals D⦄ where
  -- `shippingLimitFor`
  unfoldable pub shipping_limit_for : Money D → D
  shipping_limit_for total = d.times total.amount shipping_limit_ratio

  -- `publishedShippingLimitFor`
  unfoldable pub published_shipping_limit_for : Money D → Result (Money D)
  unfolding shipping_limit_for from_decimal
  published_shipping_limit_for total =
      from_decimal (d.round_down money_scale (shipping_limit_for total))

  -- `isShippingWithinLimit`
  unfoldable pub is_shipping_within_limit : Money D → Money D → Bool
  unfolding shipping_limit_for
  is_shipping_within_limit cost total =
      d.less_than_or_equal_to cost.amount (shipping_limit_for total)
