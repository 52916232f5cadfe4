-- ===== src/Tests/Amounts.antt =====
-- A stored Order, and an amount that is printed and parsed.
use scos.Ordering.Submit.{
  submit_order, input_issues, parsed_input, after_lookup, unlocked_lookup, attempt,
  resolve_existing, resolve_winner, save_estimate, submit_loop,
}
use scos.Ordering.Key.{trim, is_white_space, includes_nul, is_well_formed, submission_key_valid}
use scos.Ordering.Estimate.{estimate_order, estimate_shipping}
use scos.Shared.Schemas.{quantity_valid, geo_point_valid}
use scos.Pricing.{price_merchandise, discount_rate_for}
use scos.Shared.Money.{
  from_decimal, unit_price, add, equals, shipping_limit_ratio, shipping_rate_per_kg_km, subtract,
  unit_weight_kg, Money,
}
use scos.Decimal.Plain.{decimal_of_text, plain_decimal}
use scos.Ordering.Number.{matches_order_number, generate_order_number}
use scos.Ordering.Order.{
  assert_allocations, create_order, create_from_valid, matches_discount_rate, assert_each,
  StoredOrder, Order,
}
use scos.Shipping.Allocation.{
  allocate_nearest_first, assert_valid_snapshot, comes_after, snapshot_valid, take_units, sort,
  total_available,
}
use scos.Shipping.Charge.{
  is_shipping_within_limit, per_unit_km, published_shipping_limit_for, shipping_cost_for,
}
use scos.Shipping.Distance.{haversine_distance_km}
use scos.Ordering.Order.Amounts.{restore_order, parse, matches_plain_decimal, split_point}
use scos.Prelude.{◌≡◌, refl, true, [], ◌∷◌, codes, arith}
use scos.Js.Fixed.{Fixed, fixed_floats}
use scos.Zod.Plain.{plain_zod}
use scos.Decimal.Exact.{Exact, finite, exact_decimals}
use scos.Decimal.Exact.Laws.{Exact-IsExact}
use scos.Shared.Errors.{ok}
use scos.Shared.Money.Laws.{Cents}
use scos.Ordering.Order.Amounts.Printed.{parse-to_string, to_string-matches_money, matches_money}
use scos.Ordering.Order.Accepted.{is_ok, ok_of}
use scos.Http.Bodies.{order_body}
use scos.Http.Conformance.{Conforms, order_body-Conforms}
use scos.Tests.Data.{units, destination}
use scos.Shared.Money

-- 150.5 dollars
abbrev price : Money Exact
price = record { amount = finite 15_050 2 }

price-Cents : Cents Exact-IsExact price 15_050
price-Cents = (Exact-IsExact.units-decimal 15_050 2, omega arith)

parse-to_string_example :
    (n : Money Exact) × (parse (Money.to_string price) ≡ ok n)
    × Cents Exact-IsExact n 15_050
    × (Money.equals n price ≡ true)
parse-to_string_example = parse-to_string Exact-IsExact price 15_050 price-Cents

to_string-matches_money_example : matches_money (Money.to_string price) ≡ true
to_string-matches_money_example = to_string-matches_money Exact-IsExact price 15_050 price-Cents

abbrev stored : StoredOrder Fixed
stored = record {
  id = codes "1";
  order_number = codes "SO-0123456789AB";
  submission_key = codes "retry-1";
  quantity = units 7;
  destination = destination;
  unit_price = codes "150.00";
  discount_rate = codes "0.05";
  discount_amount = codes "52.50";
  shipping_cost = codes "3.1";
  allocations =
      record { warehouse_id = codes "a1"; warehouse_name = codes "Hong Kong"; quantity = units 7 }
      ∷ [];
}

restores : is_ok (restore_order {D = Exact} stored) ≡ true
unfolding submit_order input_issues trim is_white_space includes_nul is_well_formed parsed_input
    after_lookup unlocked_lookup attempt estimate_order quantity_valid geo_point_valid
    price_merchandise from_decimal unit_price decimal_of_text plain_decimal estimate_shipping
    submission_key_valid matches_order_number assert_allocations create_order resolve_existing
    resolve_winner save_estimate discount_rate_for add equals shipping_limit_ratio
    shipping_rate_per_kg_km subtract unit_weight_kg allocate_nearest_first assert_valid_snapshot
    comes_after snapshot_valid take_units sort total_available is_shipping_within_limit per_unit_km
    published_shipping_limit_for shipping_cost_for haversine_distance_km create_from_valid
    submit_loop generate_order_number restore_order parse matches_plain_decimal split_point
    matches_discount_rate assert_each
restores = refl

abbrev restored : (o : Order Fixed Exact) × (restore_order stored ≡ ok o)
restored = ok_of (restore_order stored) restores

order_body-Conforms_example : Conforms (order_body restored.0)
order_body-Conforms_example = order_body-Conforms stored restored.0 restored.1 Exact-IsExact
