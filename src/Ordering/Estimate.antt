-- ===== src/Ordering/Estimate.antt =====
-- `packages/core/src/domain/ordering/estimate.ts`: pricing, allocation and shipping composed into a
-- three-way result.
pub mod Laws
pub mod Covered
use scos.Prelude.{ℕ, Bool, not, ◌&&◌, ◌||◌, Option, some, none, if◌then◌else◌, Text}
use scos.Js.{Floats, natural}
use scos.Zod.{Zod}
use scos.Decimal.{Decimals}
use scos.Numeral.{Numerals}
use scos.Shared.Errors.{Result, ok, throws, require, invalid_request, ◌>>=◌, ◌>>◌}
use scos.Shared.Money.{Money, add}
use scos.Shared.Schemas.{GeoPoint, quantity_valid, geo_point_valid}
use scos.Pricing.{MerchandisePricing, price_merchandise}
use scos.Shipping.Allocation.{InventorySnapshot, ShippingPlan, allocate_nearest_first}
use scos.Shipping.Charge.{shipping_cost_for, published_shipping_limit_for, is_shipping_within_limit}
use scos.Ordering.Request.{OrderRequest}

-- The fields of every estimate.
pub record EstimateBase (N D : Type 0) : Type 0 where
  pub quantity : N
  pub destination : GeoPoint N
  pub pricing : MerchandisePricing D

-- The fields of an estimate that stock suffices for.
pub record Shipping (N D : Type 0) : Type 0 where
  pub allocations : ShippingPlan N
  pub shipping_cost : Money D
  pub shipping_limit : Money D
  pub order_total : Money D

pub data OrderEstimate (N D : Type 0) : Type 0 where
  valid : EstimateBase N D → Shipping N D → OrderEstimate N D
  shipping_exceeds_limit : EstimateBase N D → Shipping N D → OrderEstimate N D
  insufficient_stock : EstimateBase N D → OrderEstimate N D

module _ {N D : Type 0} ⦃f : Floats N⦄ ⦃z : Zod N⦄ ⦃d : Decimals D⦄ ⦃t : Numerals N D⦄ where
  -- From the shipping cost on.
  unfoldable pub estimate_shipping : EstimateBase N D → ShippingPlan N → Result (OrderEstimate N D)
  estimate_shipping base allocations = do
    let discounted = base.pricing.discounted_merchandise_total
    shipping_cost ← shipping_cost_for allocations
    shipping_limit ← published_shipping_limit_for discounted
    order_total ← add discounted shipping_cost
    let shipping : Shipping N D = record {
      allocations = allocations;
      shipping_cost = shipping_cost;
      shipping_limit = shipping_limit;
      order_total = order_total;
    }
    ok (
        if not (is_shipping_within_limit shipping_cost discounted)
        then shipping_exceeds_limit base shipping
        else valid base shipping)

  abbrev pub estimate_plan : EstimateBase N D → Option (ShippingPlan N) → Result (OrderEstimate N D)
  estimate_plan base none = ok (insufficient_stock base)
  estimate_plan base (some allocations) = estimate_shipping base allocations

  -- `estimateOrder`
  unfoldable pub estimate_order : OrderRequest N → InventorySnapshot N → Result (OrderEstimate N D)
  estimate_order request inventory = do
    require
        (not (not (quantity_valid request.quantity) || not (geo_point_valid request.destination)))
        invalid_request
    pricing ← price_merchandise (natural request.quantity)
    let base : EstimateBase N D = record {
      quantity = request.quantity;
      destination = request.destination;
      pricing = pricing;
    }
    allocations ← allocate_nearest_first (natural request.quantity) request.destination inventory
    estimate_plan base allocations
