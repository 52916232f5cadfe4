-- ===== src/Tests/Orders.antt =====
-- Keys, order numbers, estimates and submissions at concrete inputs.
use scos.Prelude.{
  is_some, text_eq, if◌then◌else◌, sym, ap, inl, ℕ, suc, ◌+◌, ◌≤◌, ◌≡◌, refl, true, false, Option,
  some, none, List, [], ◌∷◌, codes, arith, Text,
}
use scos.Js.{number, text}
use scos.Js.Fixed.{Fixed, fixed_floats}
use scos.Js.Fixed.Laws.{Fixed-IsIeee}
use scos.Zod.Plain.{plain_zod, plain-IsZod}
use scos.Decimal.Exact.{Exact, exact_decimals}
use scos.Decimal.Exact.Laws.{Exact-IsExact}
use scos.Numeral.Plain.{fixed_numerals, Fixed-IsNumeral}
use scos.Shared.Schemas.Laws.{Quantity}
use scos.Shared.Schemas.{quantity_valid, geo_point_valid}
use scos.Pricing.{price_merchandise, discount_rate_for}
use scos.Decimal.Plain.{plain_decimal, decimal_of_text}
use scos.Shared.Money.{
  from_decimal, unit_price, add, equals, subtract, shipping_limit_ratio, shipping_rate_per_kg_km,
  unit_weight_kg,
}
use scos.Shipping.Distance.{haversine_distance_km}
use scos.Shipping.Allocation.{
  allocate_nearest_first, assert_valid_snapshot, comes_after, snapshot_valid, take_units, sort,
  total_available,
}
use scos.Shipping.Charge.{
  is_shipping_within_limit, per_unit_km, published_shipping_limit_for, shipping_cost_for,
}
use scos.Ordering.Request.{OrderRequest}
use scos.Ordering.Estimate.{estimate_order, estimate_shipping}
use scos.Ordering.Estimate.Laws.{IsEstimate, estimate_order-IsEstimate}
use scos.Ordering.Key.{submission_key_valid, trim, is_white_space, includes_nul, is_well_formed}
use scos.Ordering.Key.Laws.{IsStorable, submission_key_valid-IsStorable}
use scos.Ordering.Number.{
  matches_order_number, generate_order_number, generate_order_number-matches,
}
use scos.Ordering.Order.{Order, NewOrder, assert_allocations, create_order, create_from_valid}
use scos.Ordering.Submit.{
  Attempt, returns, fails, Failure, unexpected, SubmissionTransaction, SubmissionStore,
  SubmitOrderInput, input_issues, parsed_input, after_lookup, unlocked_lookup, attempt,
  resolve_existing, resolve_winner, save_estimate, submit_loop, SubmitOrderOutcome, accepted,
  rejected, conflict, invalid, unavailable, submit_order,
}
use scos.Ordering.Submit.Laws.{IsTransactional, StoreView, IsTransaction, is_new}
use scos.Ordering.Submit.Safety.{submit_order-attempts}
use scos.Tests.Data.{
  units, degrees, two_warehouses, destination, seven_units, two_warehouses-valid, destination-valid,
  seven_units-valid,
}

abbrev pub retry_key : Text
retry_key = codes "retry-1"

abbrev wide_key : Text
wide_key = 55_357 ∷ 56_832 ∷ []

pub retry_key-valid : submission_key_valid Fixed retry_key ≡ true
unfolding submission_key_valid trim is_white_space includes_nul is_well_formed
retry_key-valid = refl

wide_key-valid : submission_key_valid Fixed wide_key ≡ true
unfolding submission_key_valid trim is_white_space includes_nul is_well_formed
wide_key-valid = refl

submission_key_example : IsStorable {N = Fixed} plain-IsZod wide_key
submission_key_example =
    submission_key_valid-IsStorable plain-IsZod wide_key wide_key-valid
      (omega arith, (omega arith, tt))

abbrev random_bytes : List ℕ
random_bytes = 0 ∷ 31 ∷ 32 ∷ 255 ∷ 7 ∷ 8 ∷ 9 ∷ 10 ∷ 100 ∷ 200 ∷ 18 ∷ 3 ∷ []

generate_order_number_example : matches_order_number (generate_order_number random_bytes) ≡ true
generate_order_number_example = generate_order_number-matches random_bytes refl

estimate_order_example :
    (q : ℕ) × Quantity Fixed-IsIeee plain-IsZod (units 7) q
    × IsEstimate Fixed-IsIeee plain-IsZod Exact-IsExact Fixed-IsNumeral seven_units two_warehouses q
        (estimate_order seven_units two_warehouses)
estimate_order_example =
    estimate_order-IsEstimate Fixed-IsIeee plain-IsZod Exact-IsExact Fixed-IsNumeral seven_units
      two_warehouses seven_units-valid destination-valid two_warehouses-valid

-- A store in memory: the transactions started, and the Orders saved, the last one first.
pub record World : Type 0 where
  pub started : ℕ
  pub orders : List (NewOrder Fixed Exact)

abbrev lookup : Text → List (NewOrder Fixed Exact) → Option (Order Fixed Exact)
lookup key [] = none
lookup key (o ∷ os) =
    if text_eq o.submission_key key
    then some (record { id = codes "1"; facts = o })
    else lookup key os

abbrev memory_transaction : SubmissionTransaction Fixed Exact World
memory_transaction = record {
  lock_inventory = λ w. (returns two_warehouses, w);
  find_order_by_submission_key = λ key w. (returns (lookup key w.orders), w);
  save_accepted_order = λ o w. (
    returns (record { id = codes "1"; facts = o }),
    record { started = w.started; orders = o ∷ w.orders },
  );
}

abbrev settle : {A : Type 0} → World → Attempt A × World → Attempt A × World
settle w (returns a, v) = (returns a, record { started = suc w.started; orders = v.orders })
settle w (fails e, v) = (fails e, record { started = suc w.started; orders = w.orders })

abbrev pub memory_store : SubmissionStore Fixed Exact World
memory_store = record {
  find_order_by_submission_key = λ key w. (returns (lookup key w.orders), w);
  run_in_transaction = λ work w. settle w (work memory_transaction w);
}

abbrev pub orders_of : World → List (NewOrder Fixed Exact)
orders_of w = w.orders

abbrev pub started_of : World → ℕ
started_of w = w.started

settle-started :
    {A : Type 0} (w : World) (r : Attempt A × World) → (settle w r).1.started ≤ w.started + 1
settle-started w (returns a, v) = omega arith
settle-started w (fails e, v) = omega arith

settle-fails :
    {A : Type 0} (w : World) (r : Attempt A × World) (e : Failure)
    → (settle w r).0 ≡ fails e
    → (settle w r).1.orders ≡ w.orders
settle-fails w (returns a, v) e h = cc
settle-fails w (fails e', v) e h = refl

settle-returns :
    {A : Type 0} (w : World) (r : Attempt A × World) (a : A)
    → (settle w r).0 ≡ returns a
    → (r.0 ≡ returns a) × ((settle w r).1.orders ≡ r.1.orders)
settle-returns w (returns a', v) a h = (h, refl)
settle-returns w (fails e, v) a h = cc

settle-known :
    {A : Type 0} (w : World) (r : Attempt A × World)
    → (settle w r).0 ≡ fails unexpected
    → (settle w r).1.orders ≡ w.orders
settle-known w r h = settle-fails w r unexpected h

abbrev pub memory_view : StoreView Fixed (List (NewOrder Fixed Exact)) World
memory_view = record {
  stored = orders_of;
  transactions = started_of;
  stock = λ os. two_warehouses;
  taken = λ key os. is_some (lookup key os);
}

memory_transaction-IsTransaction : IsTransaction memory_view memory_transaction
memory_transaction-IsTransaction = record {
  lock_reads = λ v. refl;
  lock_answers = λ v inventory h. ground arith;
  find_reads = λ key v. refl;
  find_answers = λ key v o h. let same : lookup key v.orders ≡ o = cc in ap is_some (sym same);
}

pub memory_store-IsTransactional : IsTransactional memory_view memory_store
memory_store-IsTransactional = record {
  lookup_reads = λ key w. refl;
  lookup_starts_none = λ key w. refl;
  starts_one = λ work w. settle-started w (work memory_transaction w);
  rolls_back = λ work w e h _. settle-fails w (work memory_transaction w) e h;
  may_commit = λ work w h. inl (settle-known w (work memory_transaction w) h);
  commits = λ work w a h.
      let (ran, kept) = settle-returns w (work memory_transaction w) a h in
      record {
        tx = memory_transaction;
        before = w;
        opened = memory_transaction-IsTransaction;
        started = refl;
        ran = ran;
        ended = kept;
      };
}

abbrev pub input : SubmitOrderInput Fixed
input = record {
  submission_id = text retry_key;
  quantity = number (units 7);
  latitude = number (degrees 1);
  longitude = number (degrees 2);
}

abbrev pub numbers : ℕ → Text
numbers n = generate_order_number random_bytes

abbrev pub start : World
start = record { started = 0; orders = [] }

pub parsed : parsed_input input ≡ some (retry_key, seven_units)
unfolding parsed_input
parsed = refl

submit_order_attempts_example :
    started_of (submit_order memory_store numbers 3 input start).1 ≤ started_of start + 3
submit_order_attempts_example =
    submit_order-attempts (List (NewOrder Fixed Exact)) memory_store memory_view
      memory_store-IsTransactional numbers 3 input retry_key seven_units parsed start

-- More units than there are.
abbrev pub large_input : SubmitOrderInput Fixed
large_input = record {
  submission_id = text retry_key;
  quantity = number (units 70);
  latitude = number (degrees 1);
  longitude = number (degrees 2);
}

abbrev pub seventy_units : OrderRequest Fixed
seventy_units = record { quantity = units 70; destination = destination }

pub large_parsed : parsed_input large_input ≡ some (retry_key, seventy_units)
unfolding parsed_input
large_parsed = refl

abbrev order_of : Attempt (SubmitOrderOutcome Fixed Exact) → Option (Order Fixed Exact)
order_of (returns (accepted o false)) = some o
order_of _ = none

accepts_seven : is_new (submit_order memory_store numbers 3 input start).0 ≡ true
unfolding submit_order input_issues trim is_white_space includes_nul is_well_formed parsed_input
    after_lookup unlocked_lookup attempt estimate_order quantity_valid geo_point_valid
    price_merchandise from_decimal unit_price decimal_of_text plain_decimal estimate_shipping
    submission_key_valid matches_order_number assert_allocations create_order resolve_existing
    resolve_winner save_estimate discount_rate_for add equals shipping_limit_ratio
    shipping_rate_per_kg_km subtract unit_weight_kg allocate_nearest_first assert_valid_snapshot
    comes_after snapshot_valid take_units sort total_available is_shipping_within_limit per_unit_km
    published_shipping_limit_for shipping_cost_for haversine_distance_km create_from_valid
    submit_loop generate_order_number
accepts_seven = refl

pub accepted_of :
    (r : Attempt (SubmitOrderOutcome Fixed Exact))
    → is_new r ≡ true
    → (o : Order Fixed Exact) × (r ≡ returns (accepted o false))
accepted_of (returns (accepted o false)) h = (o, refl)
accepted_of (returns (accepted o true)) h = cc
accepted_of (returns (rejected e)) h = cc
accepted_of (returns (conflict k)) h = cc
accepted_of (returns (invalid i)) h = cc
accepted_of (returns (unavailable n)) h = cc
accepted_of (fails e) h = cc

abbrev saved_order :
    (o : Order Fixed Exact) × ((submit_order memory_store numbers 3 input start).0
      ≡ returns (accepted o false))
saved_order = accepted_of (submit_order memory_store numbers 3 input start).0 accepts_seven
