-- ===== src/Tests/Placements.antt =====
-- A submission on the Prisma store over the database in memory.
use scos.Ordering.Submit.{
  submit_order, input_issues, parsed_input, after_lookup, unlocked_lookup, attempt,
  resolve_existing, resolve_winner, save_estimate, submit_loop, returns, accepted, SubmissionStore,
}
use scos.Ordering.Key.{trim, is_white_space, includes_nul, is_well_formed, submission_key_valid}
use scos.Ordering.Estimate.{estimate_order, estimate_shipping}
use scos.Shared.Schemas.{quantity_valid, geo_point_valid}
use scos.Pricing.{price_merchandise, discount_rate_for}
use scos.Shared.Money.{
  from_decimal, unit_price, add, equals, shipping_limit_ratio, shipping_rate_per_kg_km, subtract,
  unit_weight_kg, to_string,
}
use scos.Decimal.Plain.{decimal_of_text, plain_decimal}
use scos.Ordering.Number.{matches_order_number, generate_order_number}
use scos.Ordering.Order.{
  assert_allocations, create_order, create_from_valid, matches_discount_rate, assert_each, Order,
}
use scos.Shipping.Allocation.{
  allocate_nearest_first, assert_valid_snapshot, comes_after, snapshot_valid, take_units, sort,
  total_available,
}
use scos.Shipping.Charge.{
  is_shipping_within_limit, per_unit_km, published_shipping_limit_for, shipping_cost_for,
}
use scos.Shipping.Distance.{haversine_distance_km}
use scos.Ordering.Order.Amounts.{restore_order, parse, matches_plain_decimal, split_point}
use scos.Persistence.Store.{
  persist_order, deduct_each, classified, to_domain_order, find_order, lock_inventory,
  save_accepted_order, create_transaction, run_work, prisma_store, Session,
  create_prisma_submission_store,
}
use scos.Decimal.Digits.{fixed_text, digits, last_digits}
use scos.Persistence.Records.{format_money, format_discount_rate, format_fixed}
use scos.Persistence.Stock.{
  assert_allocations_cover_quantity, update_stock, updated, to_inventory_snapshot,
  WarehouseStockRow, ResolvedOptions, PrismaSubmissionStoreOptions, resolve_options,
}
use scos.Persistence.Failures.{classify_submission_error}
use scos.Prelude.{ℕ, ◌≡◌, refl, true, false, some, none, [], ◌∷◌, codes, Text}
use scos.Js.{whole}
use scos.Js.Fixed.{Fixed, fixed_floats}
use scos.Js.Fixed.Laws.{Fixed-IsIeee}
use scos.Zod.Plain.{plain_zod, plain-IsZod}
use scos.Decimal.Exact.{Exact, exact_decimals}
use scos.Decimal.Exact.Laws.{Exact-IsExact}
use scos.Numeral.Plain.{fixed_numerals, Fixed-IsNumeral}
use scos.Ordering.Submit.Laws.{is_new, IsTransactional}
use scos.Persistence.Store.Contract.{
  prisma_view, stored, create_prisma_submission_store-IsTransactional,
}
use scos.Persistence.Store.Placement.{IsPlaced, submit_order-IsPlaced}
use scos.Tests.Data.{degrees, seven_units}
use scos.Tests.Orders.{input, numbers, retry_key, parsed, accepted_of}
use scos.Tests.Database.{
  exact_prisma, Memory, tables_of, started_of, memory_client, memory_client-IsPrisma,
}

abbrev row : Text → ℕ → ℕ → WarehouseStockRow Fixed
row id place stock = record {
  id = id;
  name = codes "Hong Kong";
  latitude = degrees place;
  longitude = degrees place;
  stock = stock;
}

abbrev start : Session Memory
start = record {
  database = record {
    tables = record { warehouses = row (codes "a1") 1 5 ∷ row (codes "b2") 3 10 ∷ []; orders = [] };
    started = 0;
  };
  locked = false;
}

abbrev defaults : PrismaSubmissionStoreOptions Fixed
defaults = record { max_wait_ms = none; timeout_ms = none; lock_timeout_ms = none }

abbrev resolved : ResolvedOptions Fixed
resolved = record {
  max_wait_ms = whole 5000;
  timeout_ms = whole 15_000;
  lock_timeout_ms = whole 10_000;
}

resolves_defaults : resolve_options defaults ≡ some resolved
unfolding resolve_options
resolves_defaults = refl

create_prisma_submission_store-IsTransactional_example :
    (store : SubmissionStore Fixed Exact (Session Memory)) × (create_prisma_submission_store
        memory_client defaults
      ≡ some store)
    × IsTransactional (prisma_view tables_of started_of) store
create_prisma_submission_store-IsTransactional_example =
    create_prisma_submission_store-IsTransactional tables_of memory_client started_of defaults
      resolved memory_client-IsPrisma resolves_defaults

accepts_seven :
    is_new (submit_order {D = Exact} (prisma_store memory_client resolved) numbers 3 input start).0
    ≡ true
unfolding submit_order input_issues trim is_white_space includes_nul is_well_formed parsed_input
    after_lookup unlocked_lookup attempt estimate_order quantity_valid geo_point_valid
    price_merchandise from_decimal unit_price decimal_of_text plain_decimal estimate_shipping
    submission_key_valid matches_order_number assert_allocations create_order resolve_existing
    resolve_winner save_estimate discount_rate_for add equals shipping_limit_ratio
    shipping_rate_per_kg_km subtract unit_weight_kg allocate_nearest_first assert_valid_snapshot
    comes_after snapshot_valid take_units sort total_available is_shipping_within_limit per_unit_km
    published_shipping_limit_for shipping_cost_for haversine_distance_km create_from_valid
    submit_loop generate_order_number restore_order parse matches_plain_decimal split_point
    matches_discount_rate persist_order deduct_each classified to_domain_order find_order
    lock_inventory save_accepted_order create_transaction run_work prisma_store fixed_text digits
    last_digits format_money format_discount_rate format_fixed assert_allocations_cover_quantity
    update_stock updated to_inventory_snapshot to_string assert_each classify_submission_error
accepts_seven = refl

abbrev placed_order :
    (o : Order Fixed Exact) × ((submit_order
        (prisma_store memory_client resolved)
        numbers
        3
        input
        start).0
      ≡ returns (accepted o false))
placed_order =
    accepted_of (submit_order (prisma_store memory_client resolved) numbers 3 input start).0
      accepts_seven

submit_order-IsPlaced_example : IsPlaced Exact retry_key seven_units (stored tables_of start) (
    stored tables_of
      (submit_order {D = Exact} (prisma_store memory_client resolved) numbers 3 input start).1)
submit_order-IsPlaced_example =
    submit_order-IsPlaced Fixed-IsIeee plain-IsZod Exact-IsExact Fixed-IsNumeral tables_of
      memory_client started_of memory_client-IsPrisma resolved numbers 3 input retry_key seven_units
      parsed start placed_order.0 placed_order.1
