-- ===== src/Http/Bodies.antt =====
-- `apps/api/src/http/errors.ts`, `http/estimate.ts` and `endpoints/submit-order/serializers.ts`: the
-- bodies of the responses.
use scos.Prelude.{ℕ, Bool, true, false, Option, some, none, List, [], map, Text}
use scos.Zod.{Issue}
use scos.Decimal.{Decimals}
use scos.Shared.Money.{to_string}
use scos.Shared.Schemas.{GeoPoint}
use scos.Shipping.Allocation.{WarehouseAllocation}
use scos.Ordering.Estimate.{
  EstimateBase, Shipping, OrderEstimate, valid, shipping_exceeds_limit, insufficient_stock,
}
use scos.Ordering.Order.{OrderAllocation, Order}

-- ERROR_CODES
pub data ErrorCode : Type 0 where
  invalid_request_code : ErrorCode
  not_found_code : ErrorCode
  submission_id_conflict : ErrorCode
  insufficient_stock_code : ErrorCode
  shipping_exceeds_limit_code : ErrorCode
  internal_error : ErrorCode
  service_unavailable : ErrorCode

-- The object `error` of an envelope.
pub record ErrorBody : Type 0 where
  pub code : ErrorCode
  pub message : Text
  pub issues : Option (List Issue)

pub record DestinationBody (N : Type 0) : Type 0 where
  pub latitude : N
  pub longitude : N

pub record EstimateAllocation (N : Type 0) : Type 0 where
  pub warehouse_id : Text
  pub warehouse_name : Text
  pub quantity : ℕ
  pub distance_km : N

-- An estimate; `none` is null.
pub record EstimateResponse (N : Type 0) : Type 0 where
  pub is_valid : Bool
  pub reason : Option ErrorCode
  pub quantity : N
  pub destination : DestinationBody N
  pub unit_price : Text
  pub merchandise_subtotal : Text
  pub discount_rate : Text
  pub discount_amount : Text
  pub discounted_merchandise_total : Text
  pub shipping_cost : Option Text
  pub shipping_limit : Option Text
  pub order_total : Option Text
  pub allocations : List (EstimateAllocation N)

pub record OrderResponse (N : Type 0) : Type 0 where
  pub order_number : Text
  pub submission_id : Text
  pub quantity : N
  pub destination : DestinationBody N
  pub unit_price : Text
  pub merchandise_subtotal : Text
  pub discount_rate : Text
  pub discount_amount : Text
  pub discounted_merchandise_total : Text
  pub shipping_cost : Text
  pub order_total : Text
  pub allocations : List (OrderAllocation N)

-- `errorBody`
abbrev pub error_body : ErrorCode → Text → Option (List Issue) → ErrorBody
error_body code message issues = record { code = code; message = message; issues = issues }

-- `destinationBody`
abbrev pub destination_body : {N : Type 0} → GeoPoint N → DestinationBody N
destination_body p = record { latitude = p.latitude; longitude = p.longitude }

abbrev pub allocation_body : {N : Type 0} → WarehouseAllocation N → EstimateAllocation N
allocation_body a = record {
  warehouse_id = a.warehouse_id;
  warehouse_name = a.warehouse_name;
  quantity = a.quantity;
  distance_km = a.distance_km;
}

module _ {N D : Type 0} ⦃d : Decimals D⦄ where
  -- An estimate with a plan.
  abbrev pub priced_body :
      Bool → Option ErrorCode → EstimateBase N D → Shipping N D → EstimateResponse N
  priced_body is_valid reason base s = record {
    is_valid = is_valid;
    reason = reason;
    quantity = base.quantity;
    destination = destination_body base.destination;
    unit_price = to_string base.pricing.unit_price;
    merchandise_subtotal = to_string base.pricing.merchandise_subtotal;
    discount_rate = base.pricing.discount_rate;
    discount_amount = to_string base.pricing.discount_amount;
    discounted_merchandise_total = to_string base.pricing.discounted_merchandise_total;
    shipping_cost = some (to_string s.shipping_cost);
    shipping_limit = some (to_string s.shipping_limit);
    order_total = some (to_string s.order_total);
    allocations = map allocation_body s.allocations;
  }

  -- `estimateBody`
  unfoldable pub estimate_body : OrderEstimate N D → EstimateResponse N
  estimate_body (valid base s) = priced_body true none base s
  estimate_body (shipping_exceeds_limit base s) =
      priced_body false (some shipping_exceeds_limit_code) base s
  estimate_body (insufficient_stock base) = record {
    is_valid = false;
    reason = some insufficient_stock_code;
    quantity = base.quantity;
    destination = destination_body base.destination;
    unit_price = to_string base.pricing.unit_price;
    merchandise_subtotal = to_string base.pricing.merchandise_subtotal;
    discount_rate = base.pricing.discount_rate;
    discount_amount = to_string base.pricing.discount_amount;
    discounted_merchandise_total = to_string base.pricing.discounted_merchandise_total;
    shipping_cost = none;
    shipping_limit = none;
    order_total = none;
    allocations = [];
  }

  -- `orderBody`: the ID of the Order is not copied.
  unfoldable pub order_body : Order N D → OrderResponse N
  order_body order = record {
    order_number = order.facts.order_number;
    submission_id = order.facts.submission_key;
    quantity = order.facts.quantity;
    destination = destination_body order.facts.destination;
    unit_price = to_string order.facts.unit_price;
    merchandise_subtotal = to_string order.facts.merchandise_subtotal;
    discount_rate = order.facts.discount_rate;
    discount_amount = to_string order.facts.discount_amount;
    discounted_merchandise_total = to_string order.facts.discounted_merchandise_total;
    shipping_cost = to_string order.facts.shipping_cost;
    order_total = to_string order.facts.order_total;
    allocations = order.facts.allocations;
  }
