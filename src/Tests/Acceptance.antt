-- ===== src/Tests/Acceptance.antt =====
-- An Order created from an estimate, and a submission that is rejected.
use scos.Ordering.Submit.{
  submit_order, input_issues, parsed_input, after_lookup, unlocked_lookup, attempt,
  resolve_existing, resolve_winner, save_estimate, submit_loop, Attempt, returns, fails,
  SubmitOrderOutcome, accepted, rejected, conflict, invalid, unavailable,
}
use scos.Ordering.Key.{trim, is_white_space, includes_nul, is_well_formed, submission_key_valid}
use scos.Ordering.Estimate.{
  estimate_order, estimate_shipping, EstimateBase, Shipping, OrderEstimate, valid,
}
use scos.Shared.Schemas.{quantity_valid, geo_point_valid}
use scos.Pricing.{price_merchandise, discount_rate_for}
use scos.Shared.Money.{
  from_decimal, unit_price, add, equals, shipping_limit_ratio, shipping_rate_per_kg_km, subtract,
  unit_weight_kg,
}
use scos.Decimal.Plain.{decimal_of_text, plain_decimal}
use scos.Ordering.Number.{matches_order_number, generate_order_number}
use scos.Ordering.Order.{assert_allocations, create_order, create_from_valid, NewOrder}
use scos.Shipping.Allocation.{
  allocate_nearest_first, assert_valid_snapshot, comes_after, snapshot_valid, take_units, sort,
  total_available,
}
use scos.Shipping.Charge.{
  is_shipping_within_limit, per_unit_km, published_shipping_limit_for, shipping_cost_for,
}
use scos.Shipping.Distance.{haversine_distance_km}
use scos.Prelude.{[], ◌≡◌, ap, ◌∙◌, refl, true, false, Bool, List}
use scos.Js.Fixed.{Fixed, fixed_floats}
use scos.Zod.Plain.{plain_zod, plain-IsZod}
use scos.Decimal.Exact.{Exact, exact_decimals}
use scos.Numeral.Plain.{fixed_numerals, Fixed-IsNumeral}
use scos.Shared.Errors.{Result, ok, throws}
use scos.Ordering.Order.Accepted.{is_ok, ok_of, IsAcceptedFrom, create_order-IsAcceptedFrom}
use scos.Js.Fixed.Laws.{Fixed-IsIeee}
use scos.Decimal.Exact.Laws.{Exact-IsExact}
use scos.Ordering.Order.Created.{create_order-accepts}
use scos.Ordering.Submit.Rejections.{IsRejected, submit_order-IsRejected}
use scos.Tests.Data.{seven_units, two_warehouses}
use scos.Tests.Orders.{
  large_input, numbers, retry_key, retry_key-valid, memory_store, memory_store-IsTransactional,
  memory_view, start, seventy_units, large_parsed,
}

abbrev estimates_seven : is_ok (estimate_order {D = Exact} seven_units two_warehouses) ≡ true
unfolding submit_order input_issues trim is_white_space includes_nul is_well_formed parsed_input
    after_lookup unlocked_lookup attempt estimate_order quantity_valid geo_point_valid
    price_merchandise from_decimal unit_price decimal_of_text plain_decimal estimate_shipping
    submission_key_valid matches_order_number assert_allocations create_order resolve_existing
    resolve_winner save_estimate discount_rate_for add equals shipping_limit_ratio
    shipping_rate_per_kg_km subtract unit_weight_kg allocate_nearest_first assert_valid_snapshot
    comes_after snapshot_valid take_units sort total_available is_shipping_within_limit per_unit_km
    published_shipping_limit_for shipping_cost_for haversine_distance_km create_from_valid
    submit_loop generate_order_number
estimates_seven = refl

abbrev estimate_of :
    Result (OrderEstimate Fixed Exact) → OrderEstimate Fixed Exact → OrderEstimate Fixed Exact
estimate_of (ok e) other = e
estimate_of (throws c) other = other

abbrev seven_ok :
    (e : OrderEstimate Fixed Exact) × (estimate_order seven_units two_warehouses ≡ ok e)
seven_ok = ok_of (estimate_order seven_units two_warehouses) estimates_seven

creates_seven : is_ok (create_order (numbers 1) retry_key seven_ok.0) ≡ true
unfolding ok_of submit_order input_issues trim is_white_space includes_nul is_well_formed
    parsed_input after_lookup unlocked_lookup attempt estimate_order quantity_valid geo_point_valid
    price_merchandise from_decimal unit_price decimal_of_text plain_decimal estimate_shipping
    submission_key_valid matches_order_number assert_allocations create_order resolve_existing
    resolve_winner save_estimate discount_rate_for add equals shipping_limit_ratio
    shipping_rate_per_kg_km subtract unit_weight_kg allocate_nearest_first assert_valid_snapshot
    comes_after snapshot_valid take_units sort total_available is_shipping_within_limit per_unit_km
    published_shipping_limit_for shipping_cost_for haversine_distance_km create_from_valid
    submit_loop generate_order_number
creates_seven = refl

abbrev created_order :
    (o : NewOrder Fixed Exact) × (create_order (numbers 1) retry_key seven_ok.0 ≡ ok o)
created_order = ok_of (create_order (numbers 1) retry_key seven_ok.0) creates_seven

create_order-IsAcceptedFrom_example :
    (base : EstimateBase Fixed Exact) × (s : Shipping Fixed Exact) × (seven_ok.0 ≡ valid base s)
    × IsAcceptedFrom (numbers 1) retry_key base s created_order.0
create_order-IsAcceptedFrom_example =
    create_order-IsAcceptedFrom (numbers 1) retry_key seven_ok.0 created_order.0 created_order.1

abbrev valid_seven :
    (base : EstimateBase Fixed Exact) × (s : Shipping Fixed Exact) × (estimate_order seven_units
        two_warehouses
      ≡ ok (valid base s))
valid_seven =
    let (base, s, same, _) =
      create_order-IsAcceptedFrom (numbers 1) retry_key seven_ok.0 created_order.0
        created_order.1 in
    (base, s, seven_ok.1 ∙ ap ok same)

first_number-matches : matches_order_number (numbers 1) ≡ true
unfolding matches_order_number generate_order_number
first_number-matches = refl

create_order-accepts_example :
    (o : NewOrder Fixed Exact) × (create_order
        (numbers 1)
        retry_key
        (valid valid_seven.0 valid_seven.1)
      ≡ ok o)
create_order-accepts_example =
    create_order-accepts Fixed-IsIeee plain-IsZod Exact-IsExact Fixed-IsNumeral (numbers 1)
      retry_key seven_units two_warehouses valid_seven.0 valid_seven.1 valid_seven.2
      first_number-matches retry_key-valid

abbrev is_rejected : Attempt (SubmitOrderOutcome Fixed Exact) → Bool
is_rejected (returns (rejected e)) = true
is_rejected _ = false

rejected_of :
    (r : Attempt (SubmitOrderOutcome Fixed Exact))
    → is_rejected r ≡ true
    → (e : OrderEstimate Fixed Exact) × (r ≡ returns (rejected e))
rejected_of (returns (accepted o b)) h = cc
rejected_of (returns (rejected e)) h = (e, refl)
rejected_of (returns (conflict k)) h = cc
rejected_of (returns (invalid i)) h = cc
rejected_of (returns (unavailable n)) h = cc
rejected_of (fails e) h = cc

rejects_seventy : is_rejected (submit_order memory_store numbers 3 large_input start).0 ≡ true
unfolding submit_order input_issues trim is_white_space includes_nul is_well_formed parsed_input
    after_lookup unlocked_lookup attempt estimate_order quantity_valid geo_point_valid
    price_merchandise from_decimal unit_price decimal_of_text plain_decimal estimate_shipping
    submission_key_valid matches_order_number assert_allocations create_order resolve_existing
    resolve_winner save_estimate discount_rate_for add equals shipping_limit_ratio
    shipping_rate_per_kg_km subtract unit_weight_kg allocate_nearest_first assert_valid_snapshot
    comes_after snapshot_valid take_units sort total_available is_shipping_within_limit per_unit_km
    published_shipping_limit_for shipping_cost_for haversine_distance_km create_from_valid
    submit_loop generate_order_number
rejects_seventy = refl

abbrev rejected_estimate :
    (e : OrderEstimate Fixed Exact) × ((submit_order memory_store numbers 3 large_input start).0
      ≡ returns (rejected e))
rejected_estimate =
    rejected_of (submit_order memory_store numbers 3 large_input start).0 rejects_seventy

submit_order-IsRejected_example :
    IsRejected memory_view retry_key seventy_units rejected_estimate.0 []
submit_order-IsRejected_example =
    submit_order-IsRejected (List (NewOrder Fixed Exact)) memory_store memory_view
      memory_store-IsTransactional numbers 3 large_input retry_key seventy_units large_parsed start
      rejected_estimate.0 rejected_estimate.1
