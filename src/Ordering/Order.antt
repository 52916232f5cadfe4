-- ===== src/Ordering/Order.antt =====
-- `packages/core/src/domain/ordering/order.ts`: accepted orders, at acceptance and from storage.
pub mod Amounts
pub mod Covers
pub mod Accepted
pub mod Allocations
pub mod Covering
pub mod Created
use scos.Prelude.{
  ℕ, Bool, true, false, not, ◌&&◌, ◌||◌, Option, some, none, List, [], ◌∷◌, map, all, length, leb,
  ltb, if◌then◌else◌, Text, codes, text_eq, ◌==◌,
}
use scos.Js.{Floats, whole, natural}
use scos.Zod.{Zod}
use scos.Decimal.{Decimals}
use scos.Decimal.Plain.{decimal_of_text}
use scos.Numeral.{Numerals}
use scos.Shared.Errors.{Result, ok, throws, require, invalid_order, invalid_amount, ◌>>=◌, ◌>>◌}
use scos.Shared.Money.{Money, from_decimal, add, subtract, max_quantity}
use scos.Shared.Money
use scos.Shared.Schemas.{GeoPoint, geo_point_valid}
use scos.Pricing.{MerchandisePricing, discount_rate_for}
use scos.Shipping.Allocation.{WarehouseAllocation, contains}
use scos.Shipping.Charge.{shipping_cost_for, is_shipping_within_limit}
use scos.Ordering.Request.{OrderRequest}
use scos.Ordering.Estimate.{
  EstimateBase, Shipping, OrderEstimate, valid, shipping_exceeds_limit, insufficient_stock,
}
use scos.Ordering.Key.{submission_key_valid}
use scos.Ordering.Number.{matches_order_number}

pub record OrderAllocation (N : Type 0) : Type 0 where
  pub warehouse_id : Text
  pub warehouse_name : Text
  pub quantity : N

pub record NewOrder (N D : Type 0) : Type 0 where
  pub order_number : Text
  pub submission_key : Text
  pub quantity : N
  pub destination : GeoPoint N
  pub unit_price : Money D
  pub merchandise_subtotal : Money D
  pub discount_rate : Text
  pub discount_amount : Money D
  pub discounted_merchandise_total : Money D
  pub shipping_cost : Money D
  pub order_total : Money D
  pub allocations : List (OrderAllocation N)

-- An Order is a NewOrder with its `id`.
pub record Order (N D : Type 0) : Type 0 where
  pub id : Text
  pub facts : NewOrder N D

pub record StoredOrder (N : Type 0) : Type 0 where
  pub id : Text
  pub order_number : Text
  pub submission_key : Text
  pub quantity : N
  pub destination : GeoPoint N
  pub unit_price : Text
  pub discount_rate : Text
  pub discount_amount : Text
  pub shipping_cost : Text
  pub allocations : List (OrderAllocation N)

-- `invariant`
abbrev pub invariant : Bool → Result (Unit {0})
invariant condition = require condition invalid_order

-- `orderAmount`
abbrev pub order_amount : {D : Type 0} → Result (Money D) → Result (Money D)
order_amount (ok m) = ok m
order_amount (throws e) = throws invalid_order

abbrev pub is_digit : ℕ → Bool
is_digit c = leb b'0' c && leb c b'9'

-- `DISCOUNT_RATE_PATTERN.test(text)`: /^(?:0\.\d{2}|1\.00)$/
unfoldable pub matches_discount_rate : Text → Bool
matches_discount_rate (c ∷ point ∷ d ∷ e ∷ []) =
    (c == b'0' && point == b'.' && is_digit d && is_digit e)
    || text_eq (c ∷ point ∷ d ∷ e ∷ []) (codes "1.00")
matches_discount_rate _ = false

abbrev pub assert_order_number : Text → Result (Unit {0})
assert_order_number order_number = invariant (matches_order_number order_number)

abbrev pub assert_submission_key : (N : Type 0) ⦃z : Zod N⦄ → Text → Result (Unit {0})
assert_submission_key N key = invariant (submission_key_valid N key)

module _ {N : Type 0} ⦃f : Floats N⦄ where
  -- The loop of `assertAllocations`, with the IDs and the units so far.
  unfoldable pub assert_each : N → List Text → N → List (OrderAllocation N) → Result (Unit {0})
  assert_each quantity seen allocated [] = invariant (f.eq allocated quantity)
  assert_each quantity seen allocated (a ∷ rest) =
      let after = assert_each quantity (a.warehouse_id ∷ seen) (f.add allocated a.quantity) rest in
      invariant (ltb 0 (length a.warehouse_id))
      >> invariant (ltb 0 (length a.warehouse_name))
      >> invariant (f.is_safe_integer a.quantity && f.lt (whole 0) a.quantity)
      >> invariant (not (contains a.warehouse_id seen))
      >> after

  -- `assertAllocations`
  unfoldable pub assert_allocations : N → List (OrderAllocation N) → Result (Unit {0})
  unfolding assert_each
  assert_allocations quantity allocations =
      invariant (ltb 0 (length allocations)) >> assert_each quantity [] (whole 0) allocations

  -- `freezeAllocations` of a shipping plan: the distance is not kept.
  abbrev pub order_allocation : WarehouseAllocation N → OrderAllocation N
  order_allocation a = record {
    warehouse_id = a.warehouse_id;
    warehouse_name = a.warehouse_name;
    quantity = whole a.quantity;
  }

  abbrev pub has_length : WarehouseAllocation N → Bool
  has_length a = f.is_finite a.distance_km && f.le (whole 0) a.distance_km

  module _ {D : Type 0} ⦃d : Decimals D⦄ ⦃t : Numerals N D⦄ where
    -- `createOrder` after the check that the estimate is valid.
    unfoldable pub create_from_valid :
        Text → Text → EstimateBase N D → Shipping N D → Result (NewOrder N D)
    create_from_valid order_number key base s = do
      let p = base.pricing
      let q = natural base.quantity
      invariant (
          f.is_safe_integer base.quantity
          && f.lt (whole 0) base.quantity
          && f.le base.quantity (whole max_quantity))
      assert_allocations base.quantity (map order_allocation s.allocations)
      invariant (all has_length s.allocations)
      invariant (d.equals p.merchandise_subtotal.amount (d.times Money.unit_price (d.decimal q 0)))
      invariant (text_eq p.discount_rate (discount_rate_for q))
      invariant (
          d.equals p.discount_amount.amount
            (d.times p.merchandise_subtotal.amount (decimal_of_text p.discount_rate)))
      difference ← subtract p.merchandise_subtotal p.discount_amount
      invariant (Money.equals difference p.discounted_merchandise_total)
      charge ← shipping_cost_for s.allocations
      invariant (Money.equals s.shipping_cost charge)
      invariant (is_shipping_within_limit s.shipping_cost p.discounted_merchandise_total)
      sum ← add p.discounted_merchandise_total s.shipping_cost
      invariant (Money.equals sum s.order_total)
      price ← from_decimal Money.unit_price
      ok (record {
        order_number = order_number;
        submission_key = key;
        quantity = base.quantity;
        destination = base.destination;
        unit_price = price;
        merchandise_subtotal = p.merchandise_subtotal;
        discount_rate = p.discount_rate;
        discount_amount = p.discount_amount;
        discounted_merchandise_total = p.discounted_merchandise_total;
        shipping_cost = s.shipping_cost;
        order_total = s.order_total;
        allocations = map order_allocation s.allocations;
      })

    abbrev pub create_from : Text → Text → OrderEstimate N D → Result (NewOrder N D)
    create_from order_number key (valid base s) = create_from_valid order_number key base s
    create_from order_number key (shipping_exceeds_limit base s) = throws invalid_order
    create_from order_number key (insufficient_stock base) = throws invalid_order

    -- `createOrder`
    unfoldable pub create_order :
        ⦃z : Zod N⦄ → Text → Text → OrderEstimate N D → Result (NewOrder N D)
    create_order order_number key estimate =
        assert_order_number order_number
        >> assert_submission_key N key
        >> create_from order_number key estimate

  -- `hasSameRequest`
  unfoldable pub has_same_request : {D : Type 0} → NewOrder N D → OrderRequest N → Bool
  has_same_request order request =
      f.eq order.quantity request.quantity
      && f.eq order.destination.latitude request.destination.latitude
      && f.eq order.destination.longitude request.destination.longitude
