-- ===== src/Ordering/Estimate/Laws.antt =====
-- What `estimateOrder` returns, on every branch.
use scos.Prelude.{
  [], ◌∷◌, ℕ, ◌+◌, ◌*◌, ◌/◌, ◌-◌, ◌≤◌, ◌<◌, ◌≡◌, refl, true, false, arith, leb, leb→le, sum_by, All,
  All-map, ◌⊎◌, inl, inr, Bool-cases,
}
use scos.Js.{Floats, IsIeee, natural_of_count}
use scos.Zod.{Zod, IsZod}
use scos.Decimal.{Decimals, IsExact}
use scos.Numeral.{Numerals, IsNumeral}
use scos.Shared.Errors.{Result, ok, throws, invalid_request, invalid_inventory, amount_out_of_range}
use scos.Shared.Money.{Money, max_quantity, money_max_cents}
use scos.Shared.Money.Laws.{Cents, add-Cents, add-out_of_range}
use scos.Shared.Schemas.{GeoPoint, quantity_valid, geo_point_valid}
use scos.Shared.Schemas.Laws.{Quantity, Quantity-of_valid, IsOnEarth, IsOnEarth-of_valid}
use scos.Pricing.Tiers.{percent_for}
use scos.Pricing.Exact.{IsPriced, price_merchandise-IsPriced}
use scos.Shipping.Distance.Bounds.{IsLength, max_distance_km, haversine_distance_km-IsLength}
use scos.Shipping.Allocation.{
  InventorySnapshot, ShippingPlan, snapshot_valid, total_available, WarehouseAllocation, location,
}
use scos.Shipping.Allocation.Loop.{quantity_of}
use scos.Shipping.Allocation.Snapshot.{IsStock, snapshot_valid-IsStock}
use scos.Shipping.Allocation.Plan.{
  SuppliedBy, IsNearestPlan, assert_valid_snapshot-invalid, allocate_nearest_first-IsNearestPlan,
}
use scos.Shipping.Charge.{shipping_cost_for}
use scos.Shipping.Charge.Bounds.{shipping_cost_for-Cents}
use scos.Shipping.Charge.Limit.{published_shipping_limit_for-Cents, is_shipping_within_limit_lem}
use scos.Ordering.Request.{OrderRequest}
use scos.Ordering.Estimate.{
  EstimateBase, Shipping, OrderEstimate, valid, shipping_exceeds_limit, insufficient_stock,
  estimate_shipping, estimate_order,
}

module _ {N D : Type 0} ⦃f : Floats N⦄ ⦃z : Zod N⦄ ⦃d : Decimals D⦄ ⦃t : Numerals N D⦄
    (ieee : IsIeee N) (schemas : IsZod N) (x : IsExact D) (numeral : IsNumeral N D ieee x) where
  -- An unvalidated quantity or destination is refused before anything is computed.
  pub estimate_order-invalid_request :
      (request : OrderRequest N) (inventory : InventorySnapshot N)
      → (quantity_valid request.quantity ≡ false) ⊎ (geo_point_valid request.destination ≡ false)
      → estimate_order {D = D} request inventory ≡ throws invalid_request
  unfolding estimate_order
  estimate_order-invalid_request request inventory (inl h) = rw h refl
  estimate_order-invalid_request request inventory (inr h) =
      elim (Bool-cases (quantity_valid request.quantity)) [
        | inl k ↦ rw (k, h) refl
        | inr k ↦ rw k refl
      ]

  -- What `q` units cost after the discount, in cents.
  abbrev pub net_cents : ℕ → ℕ
  net_cents q = 15_000 * q - 150 * q * percent_for q

  -- The charge, the limit and the total of an estimate for a merchandise total of `c` cents with a
  -- shipping charge of `b` cents.
  pub record IsCharged (s : Shipping N D) (c b : ℕ) : Type 0 where
    pub charged : shipping_cost_for s.allocations ≡ ok s.shipping_cost
    pub cost : Cents x s.shipping_cost b
    pub limit : Cents x s.shipping_limit (c * 15 / 100)
    pub total : Cents x s.order_total (c + b)

  -- The three ways that shipping a plan can end.
  pub data IsShipped (base : EstimateBase N D) (p : ShippingPlan N) (c : ℕ)
      : Result (OrderEstimate N D) → Type 0 where
    within_limit :
        (s : Shipping N D) (b : ℕ)
        → s.allocations ≡ p
        → IsCharged s c b
        → b ≤ c * 15 / 100
        → IsShipped base p c (ok (valid base s))
    over_limit :
        (s : Shipping N D) (b : ℕ)
        → s.allocations ≡ p
        → IsCharged s c b
        → c * 15 / 100 < b
        → IsShipped base p c (ok (shipping_exceeds_limit base s))
    overflow :
        (cost : Money D) (b : ℕ)
        → shipping_cost_for p ≡ ok cost
        → Cents x cost b
        → c * 15 / 100 < b
        → b ≤ 9400 * sum_by quantity_of p
        → money_max_cents < c + b
        → IsShipped base p c (throws amount_out_of_range)

  module _ (base : EstimateBase N D) (p : ShippingPlan N) (c : ℕ)
      (total : Cents x base.pricing.discounted_merchandise_total c) (modest : c ≤ 800_000_000_000)
      (near : All (λ a. IsLength ieee max_distance_km a.distance_km) p)
      (le : sum_by quantity_of p ≤ max_quantity) where
    pub estimate_shipping-IsShipped : IsShipped base p c (estimate_shipping base p)
    unfolding estimate_shipping
    estimate_shipping-IsShipped =
        let discounted = base.pricing.discounted_merchandise_total in
        let (cost, b, e, cost_cents, bound) = shipping_cost_for-Cents ieee x numeral p near le in
        let (limit, e', limit_cents) = published_shipping_limit_for-Cents x discounted c total in
        let decision = is_shipping_within_limit_lem x cost discounted b c cost_cents total in
        elim (Bool-cases (leb (c + b) money_max_cents)) [
          | inl fits ↦
              let (sum, e'', sum_cents) =
                add-Cents x discounted cost c b total cost_cents (leb→le _ _ fits) in
              let s : Shipping N D = record {
                allocations = p;
                shipping_cost = cost;
                shipping_limit = limit;
                order_total = sum;
              } in
              let charged : IsCharged s c b = record {
                charged = e;
                cost = cost_cents;
                limit = limit_cents;
                total = sum_cents;
              } in
              elim (Bool-cases (leb (b * 100) (c * 15))) [
                | inl within ↦
                    rw (e, e', e'', decision, within) (within_limit s b refl charged (ground arith))
                | inr beyond ↦
                    rw (e, e', e'', decision, beyond) (over_limit s b refl charged (ground arith))
              ]
          | inr exceeds ↦
              let too_much : money_max_cents < c + b = ground arith in
              rw (e, e', add-out_of_range x discounted cost c b total cost_cents too_much)
                (overflow cost b e cost_cents (omega arith) bound too_much)
        ]

  -- The base of an estimate copies the request and prices its quantity.
  abbrev pub IsBase : OrderRequest N → ℕ → EstimateBase N D → Type 0
  IsBase request q base =
      (base.quantity ≡ request.quantity)
      × (base.destination ≡ request.destination)
      × IsPriced x base.pricing q

  -- What `estimateOrder` may return for a request of `q` units.
  pub data IsEstimate (request : OrderRequest N) (inventory : InventorySnapshot N) (q : ℕ)
      : Result (OrderEstimate N D) → Type 0 where
    short :
        (base : EstimateBase N D)
        → IsBase request q base
        → total_available inventory < q
        → IsEstimate request inventory q (ok (insufficient_stock base))
    shipped :
        (base : EstimateBase N D) (p : ShippingPlan N) (r : Result (OrderEstimate N D))
        → IsBase request q base
        → IsNearestPlan q request.destination inventory p
        → IsShipped base p (net_cents q) r
        → IsEstimate request inventory q r

  net_cents-modest : (q : ℕ) → q ≤ max_quantity → net_cents q ≤ 800_000_000_000
  net_cents-modest q h = ground arith

  pub supplied-IsLength :
      (destination : GeoPoint N)
      → IsOnEarth ieee schemas destination
      → (a : WarehouseAllocation N) (inventory : InventorySnapshot N)
      → All (IsStock ieee schemas) inventory
      → SuppliedBy destination inventory a
      → IsLength ieee max_distance_km a.distance_km
  supplied-IsLength destination on_earth a [] h m = absurd m
  supplied-IsLength destination on_earth a (w ∷ ws) ((lat, lon, _, _, _), h) (inl t) =
      rw t.same_distance
        (haversine_distance_km-IsLength ieee (location w) destination lat lon on_earth.0 on_earth.1)
  supplied-IsLength destination on_earth a (w ∷ ws) (_, h) (inr m) =
      supplied-IsLength destination on_earth a ws h m

  module _ (request : OrderRequest N) (inventory : InventorySnapshot N)
      (quantity_ok : quantity_valid request.quantity ≡ true)
      (destination_ok : geo_point_valid request.destination ≡ true) where
    pub estimate_order-invalid_inventory :
        snapshot_valid inventory ≡ false
        → estimate_order {D = D} request inventory ≡ throws invalid_inventory
    unfolding estimate_order
    estimate_order-invalid_inventory h =
        let (q, (c, _, le)) = Quantity-of_valid ieee schemas request.quantity quantity_ok in
        let (pricing, e, _) = price_merchandise-IsPriced x q le in
        let read = natural_of_count request.quantity q c in
        rw
          (
            quantity_ok,
            destination_ok,
            read,
            e,
            assert_valid_snapshot-invalid ieee schemas q request.destination inventory h,
          )
          refl

    -- For a validated request and a valid snapshot, the estimate is either short, with the
    -- stock below the quantity, or a nearest plan for the quantity, priced, charged and tested against
    -- the published limit; only an estimate over the limit can overflow.
    pub estimate_order-IsEstimate :
        snapshot_valid inventory ≡ true
        → (q : ℕ) × Quantity ieee schemas request.quantity q
          × IsEstimate request inventory q (estimate_order request inventory)
    unfolding estimate_order
    estimate_order-IsEstimate h =
        let (q, (c, pos, le)) = Quantity-of_valid ieee schemas request.quantity quantity_ok in
        let (pricing, e, priced) = price_merchandise-IsPriced x q le in
        let read = natural_of_count request.quantity q c in
        let base : EstimateBase N D = record {
          quantity = request.quantity;
          destination = request.destination;
          pricing = pricing;
        } in
        let on_earth = IsOnEarth-of_valid ieee schemas request.destination destination_ok in
        let stock = (snapshot_valid-IsStock ieee schemas inventory h).0 in
        (
          q,
          (c, pos, le),
          elim (allocate_nearest_first-IsNearestPlan ieee schemas request.destination inventory h
              destination_ok q) [
                | inl (below, none_found) ↦
                    rw (quantity_ok, destination_ok, read, e, none_found)
                      (short base (refl, refl, priced) below)
                | inr (p, found, nearest) ↦
                    let near =
                      All-map
                        (λ a m. supplied-IsLength request.destination on_earth a inventory stock m)
                        p nearest.supplied in
                    let enough : sum_by quantity_of p ≤ max_quantity =
                      omega (arith, nearest.fulfils) in
                    rw (quantity_ok, destination_ok, read, e, found)
                      (shipped base p _ (refl, refl, priced) nearest
                        (estimate_shipping-IsShipped base p (net_cents q) priced.discounted
                          (net_cents-modest q le) near enough))
              ],
        )
