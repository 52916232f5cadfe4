-- ===== src/Tests/Shipments.antt =====
-- Money, pricing, distances, allocation and the shipping charge at concrete inputs.
use mathlib.Core.List.{Permᴰ}
use scos.Prelude.{
  ℕ, ◌+◌, ◌*◌, ◌/◌, ◌^◌, ◌≤◌, ◌<◌, ◌≡◌, refl, ◌∙◌, true, false, some, none, [], ◌∷◌, codes, arith,
  ◌⊎◌, sum_by,
}
use scos.Js.Fixed.{Fixed, fixed_floats, pos_part}
use scos.Js.Fixed.Laws.{Fixed-IsIeee, is_within-Fixed}
use scos.Zod.Plain.{plain_zod, plain-IsZod}
use scos.Decimal.Exact.{Exact, finite, exact_decimals}
use scos.Decimal.Exact.Laws.{Exact-IsExact, units-Exact, read_self}
use scos.Decimal.Plain.{plain_decimal}
use scos.Numeral.Plain.{fixed_numerals, Fixed-IsNumeral}
use scos.Shared.Errors.{ok}
use scos.Shared.Money.{Money, from_decimal}
use scos.Shared.Money.Laws.{Cents, Cents_of_from_decimal}
use scos.Shared.Schemas.Laws.{Quantity, Quantity-of_valid}
use scos.Pricing.{MerchandisePricing, price_merchandise, discount_rate_for}
use scos.Pricing.Tiers.{percent_for, plain_decimal-discount_rate_for}
use scos.Pricing.Exact.{IsPriced, price_merchandise-IsPriced}
use scos.Shipping.Distance.{haversine_distance_km}
use scos.Shipping.Distance.Bounds.{IsLength, max_distance_km, haversine_distance_km-IsLength}
use scos.Shipping.Allocation.{
  ShippingPlan, total_available, allocate_nearest_first, stocked, sort, take_units, snapshot_valid,
  assert_valid_snapshot, comes_after,
}
use scos.Shipping.Allocation.Loop.{quantity_of}
use scos.Shipping.Allocation.Loop.Cost.{plan_cost, choice_cost, Choice}
use scos.Shipping.Allocation.Plan.{IsNearestPlan, allocate_nearest_first-IsNearestPlan}
use scos.Shipping.Allocation.Plan.Order.{allocate_nearest_first-perm}
use scos.Shipping.Allocation.Plan.Least.{allocate_nearest_first-least}
use scos.Shipping.Charge.{shipping_cost_for, published_shipping_limit_for, is_shipping_within_limit}
use scos.Shipping.Charge.Laws.{unit_distance, shipping_cost_for-half_up}
use scos.Shipping.Charge.Limit.{published_shipping_limit_for-agrees}
use scos.Shipping.Charge.Bounds.{shipping_cost_for-Cents}
use scos.Tests.Data.{
  units, degrees, two_warehouses, near_first, destination, two_warehouses-valid, near_first-valid,
  destination-valid, seven_units-valid,
}

abbrev amount : Money Exact
amount = record { amount = finite 2250 2 }

abbrev merchandise : Money Exact
merchandise = record { amount = finite 15_005 2 }

amount-Cents : Cents Exact-IsExact amount 2250
amount-Cents = (units-Exact 2 (finite 2250 2) ∙ read_self 2250 2, omega arith)

merchandise-Cents : Cents Exact-IsExact merchandise 15_005
merchandise-Cents = (units-Exact 2 (finite 15_005 2) ∙ read_self 15_005 2, omega arith)

from_decimal_amount : from_decimal (finite 2250 2) ≡ ok amount
unfolding from_decimal
from_decimal_amount = refl

Cents_of_from_decimal_example :
    (c : ℕ) × (Exact-IsExact.units 2 (finite 2250 2) ≡ some c) × Cents Exact-IsExact amount c
Cents_of_from_decimal_example =
    Cents_of_from_decimal Exact-IsExact (finite 2250 2) amount from_decimal_amount

Quantity-of_valid_example : (n : ℕ) × Quantity Fixed-IsIeee plain-IsZod (units 7) n
Quantity-of_valid_example = Quantity-of_valid Fixed-IsIeee plain-IsZod (units 7) seven_units-valid

discount_rate_example : plain_decimal (discount_rate_for 100) ≡ (percent_for 100, 2)
discount_rate_example = plain_decimal-discount_rate_for 100

price_merchandise_example :
    (p : MerchandisePricing Exact) × (price_merchandise 7 ≡ ok p) × IsPriced Exact-IsExact p 7
price_merchandise_example = price_merchandise-IsPriced Exact-IsExact 7 (omega arith)

haversine_distance_km_example :
    IsLength Fixed-IsIeee max_distance_km (haversine_distance_km destination destination)
haversine_distance_km_example =
    haversine_distance_km-IsLength Fixed-IsIeee destination destination
      (is_within-Fixed 90 (degrees 1)) (is_within-Fixed 180 (degrees 2))
      (is_within-Fixed 90 (degrees 1)) (is_within-Fixed 180 (degrees 2))

allocate_nearest_first_example :
    ((total_available two_warehouses < 7)
      × (allocate_nearest_first 7 destination two_warehouses ≡ ok none))
    ⊎ ((p : ShippingPlan Fixed) × (allocate_nearest_first 7 destination two_warehouses
          ≡ ok (some p))
        × IsNearestPlan 7 destination two_warehouses p)
allocate_nearest_first_example =
    allocate_nearest_first-IsNearestPlan Fixed-IsIeee plain-IsZod destination two_warehouses
      two_warehouses-valid destination-valid 7

allocate_nearest_first_swapped :
    allocate_nearest_first 7 destination two_warehouses
    ≡ allocate_nearest_first 7 destination near_first
allocate_nearest_first_swapped =
    allocate_nearest_first-perm Fixed-IsIeee plain-IsZod 7 destination (Permᴰ.swap refl refl)
      destination-valid two_warehouses-valid near_first-valid

-- The plan for seven units: five from the near warehouse, two from the far one.
abbrev plan_of_seven : ShippingPlan Fixed
plan_of_seven =
    record {
      warehouse_id = codes "a1";
      warehouse_name = codes "Hong Kong";
      quantity = 5;
      distance_km =
          haversine_distance_km (record { latitude = degrees 1; longitude = degrees 1 })
            destination;
    }
    ∷ record {
      warehouse_id = codes "b2";
      warehouse_name = codes "Warsaw";
      quantity = 2;
      distance_km =
          haversine_distance_km (record { latitude = degrees 40; longitude = degrees 20 })
            destination;
    }
    ∷ []

allocates_seven : allocate_nearest_first 7 destination two_warehouses ≡ ok (some plan_of_seven)
unfolding allocate_nearest_first assert_valid_snapshot snapshot_valid total_available take_units
    sort comes_after haversine_distance_km
allocates_seven = refl

costs_more :
    (x y : Fixed)
    → fixed_floats.is_finite x ≡ true
    → fixed_floats.is_finite y ≡ true
    → fixed_floats.lt y x ≡ false
    → pos_part x ≤ pos_part y
costs_more x y _ _ h = ground arith

-- Two units from the near warehouse and five from the far one.
other-Choice : Choice pos_part 7 (sort (stocked destination two_warehouses)) (2 ∷ 5 ∷ [])
unfolding sort comes_after haversine_distance_km
other-Choice = (omega arith, omega arith, (omega arith, omega arith, refl))

allocate_nearest_first_cheaper :
    plan_cost pos_part plan_of_seven
    ≤ choice_cost pos_part (sort (stocked destination two_warehouses)) (2 ∷ 5 ∷ [])
allocate_nearest_first_cheaper =
    allocate_nearest_first-least Fixed-IsIeee plain-IsZod pos_part costs_more destination
      two_warehouses two_warehouses-valid destination-valid 7 plan_of_seven allocates_seven
      (2 ∷ 5 ∷ []) other-Choice

published_shipping_limit_example :
    (limit : Money Exact) × (published_shipping_limit_for merchandise ≡ ok limit)
    × (is_shipping_within_limit amount merchandise
        ≡ exact_decimals.less_than_or_equal_to amount.amount limit.amount)
published_shipping_limit_example =
    published_shipping_limit_for-agrees Exact-IsExact amount merchandise 2250 15_005 amount-Cents
      merchandise-Cents

-- Five units over 100 km.
abbrev hundred_km : ShippingPlan Fixed
hundred_km =
    record {
      warehouse_id = codes "a1";
      warehouse_name = codes "Hong Kong";
      quantity = 5;
      distance_km = degrees 100;
    }
    ∷ []

shipping_cost_half_up_example :
    (m : Money Exact) × (shipping_cost_for hundred_km ≡ ok m)
    × Cents Exact-IsExact m (
        (2 * (365 * unit_distance Exact-IsExact pos_part hundred_km) + 10 ^ (3 + 6))
        / (2 * 10 ^ (3 + 6)))
shipping_cost_half_up_example =
    shipping_cost_for-half_up Exact-IsExact 6 pos_part hundred_km
      (units-Exact 6 (finite 100_000_000 6) ∙ read_self 100_000_000 6, tt) (omega arith)
      (omega arith) (omega arith)

shipping_cost_example :
    (m : Money Exact) × (c : ℕ) × (shipping_cost_for hundred_km ≡ ok m)
    × Cents Exact-IsExact m c
    × (c ≤ 9400 * sum_by quantity_of hundred_km)
shipping_cost_example =
    shipping_cost_for-Cents Fixed-IsIeee Exact-IsExact Fixed-IsNumeral hundred_km
      ((is_within-Fixed 25_488 (degrees 100), refl), tt) (omega arith)
