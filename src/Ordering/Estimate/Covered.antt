-- ===== src/Ordering/Estimate/Covered.antt =====
-- What a valid estimate covers.
use scos.Prelude.{ℕ, ◌≡◌, true, ap, ◌∙◌, sum_by, Bool-cases, inl, inr}
use scos.Js.{Floats, IsIeee}
use scos.Zod.{Zod, IsZod}
use scos.Decimal.{Decimals, IsExact}
use scos.Numeral.{Numerals, IsNumeral}
use scos.Shared.Errors.{Result, ok}
use scos.Shared.Schemas.{quantity_valid, geo_point_valid}
use scos.Shared.Schemas.Laws.{Quantity}
use scos.Shipping.Allocation.{InventorySnapshot, ShippingPlan, snapshot_valid}
use scos.Shipping.Allocation.Loop.{quantity_of}
use scos.Ordering.Request.{OrderRequest}
use scos.Ordering.Estimate.{EstimateBase, Shipping, OrderEstimate, valid, estimate_order}
use scos.Ordering.Estimate.Laws.{
  IsShipped, within_limit, over_limit, overflow, IsEstimate, short, shipped,
  estimate_order-invalid_request, estimate_order-invalid_inventory, estimate_order-IsEstimate,
}

module _ {N D : Type 0} ⦃f : Floats N⦄ ⦃z : Zod N⦄ ⦃d : Decimals D⦄ ⦃t : Numerals N D⦄
    (ieee : IsIeee N) (schemas : IsZod N) (x : IsExact D) (numeral : IsNumeral N D ieee x)
    (base : EstimateBase N D) (s : Shipping N D) where
  plan-shipped :
      (base' : EstimateBase N D) (p : ShippingPlan N) (c : ℕ) (r : Result (OrderEstimate N D))
      → IsShipped ieee schemas x numeral base' p c r
      → r ≡ ok (valid base s)
      → s.allocations ≡ p
  plan-shipped base' p c _ (within_limit s' b same charged le) h = cc
  plan-shipped base' p c _ (over_limit s' b same charged le) h = cc
  plan-shipped base' p c _ (overflow cost b e cents le bound much) h = cc

  fulfils-estimate :
      (request : OrderRequest N) (inventory : InventorySnapshot N) (q : ℕ)
      (r : Result (OrderEstimate N D))
      → IsEstimate ieee schemas x numeral request inventory q r
      → r ≡ ok (valid base s)
      → sum_by quantity_of s.allocations ≡ q
  fulfils-estimate request inventory q _ (short b is_base below) h = cc
  fulfils-estimate request inventory q r (shipped b p _ is_base nearest charged) h =
      ap (sum_by quantity_of) (plan-shipped b p _ r charged h) ∙ nearest.fulfils

  -- Only a validated request and a valid snapshot have an estimate.
  pub estimate_order-validated :
      (request : OrderRequest N) (inventory : InventorySnapshot N)
      → estimate_order request inventory ≡ ok (valid base s)
      → (quantity_valid request.quantity ≡ true)
        × (geo_point_valid request.destination ≡ true)
        × (snapshot_valid inventory ≡ true)
  estimate_order-validated request inventory h =
      elim (Bool-cases (quantity_valid request.quantity)) [
        | inl quantity_ok ↦ elim (Bool-cases (geo_point_valid request.destination)) [
          | inl destination_ok ↦ elim (Bool-cases (snapshot_valid inventory)) [
            | inl valid_stock ↦ (quantity_ok, destination_ok, valid_stock)
            | inr bad_stock ↦
                let refused =
                  estimate_order-invalid_inventory ieee schemas x numeral request inventory
                    quantity_ok destination_ok bad_stock in
                absurd cc
          ]
          | inr bad ↦
              let refused =
                estimate_order-invalid_request ieee schemas x numeral request inventory (inr bad) in
              absurd cc
        ]
        | inr bad ↦
            let refused =
              estimate_order-invalid_request ieee schemas x numeral request inventory (inl bad) in
            absurd cc
      ]

  -- A valid estimate has a plan for exactly the quantity of its request.
  pub estimate_order-fulfils :
      (request : OrderRequest N) (inventory : InventorySnapshot N)
      → estimate_order request inventory ≡ ok (valid base s)
      → (q : ℕ) × Quantity ieee schemas request.quantity q × (sum_by quantity_of s.allocations ≡ q)
  estimate_order-fulfils request inventory h =
      let (quantity_ok, destination_ok, stocked) = estimate_order-validated request inventory h in
      let (q, quantity, estimated) =
        estimate_order-IsEstimate ieee schemas x numeral request inventory quantity_ok
          destination_ok stocked in
      (q, quantity, fulfils-estimate request inventory q _ estimated h)
