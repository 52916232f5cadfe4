-- ===== src/Ordering/Order/Created.antt =====
-- `createOrder` of `packages/core/src/domain/ordering/order.ts`: which estimates become an Order.
use native.Mathlib.Nat.{mul-le-mul_left}
use scos.Prelude.{
  ℕ, ◌*◌, ◌/◌, ◌≤◌, ◌≡◌, refl, ◌∙◌, some, [], ◌∷◌, map, all, true, inl, inr, leb, All, All-map,
  Text, text_eq_refl, arith,
}
use scos.Js.{Floats, IsIeee, natural_of_count}
use scos.Zod.{Zod, IsZod}
use scos.Decimal.{Decimals, IsExact}
use scos.Numeral.{Numerals, IsNumeral}
use scos.Shared.Errors.{Result, ok}
use scos.Shared.Money.{Money, equals}
use scos.Shared.Money.Laws.{Cents, subtract-Cents, add-Cents, from_decimal-Cents}
use scos.Shared.Schemas.Laws.{Quantity, IsOnEarth, IsOnEarth-of_valid}
use scos.Shared.Schemas.{GeoPoint}
use scos.Pricing.{discount_rate_for}
use scos.Pricing.Exact.{==-self, IsPriced, cents-unit_price, equals-subtotal, equals-discount}
use scos.Pricing.Tiers.{percent_for, percent_for_bound}
use scos.Shipping.Distance.Bounds.{IsLength, max_distance_km}
use scos.Shipping.Allocation.{InventorySnapshot, ShippingPlan, WarehouseAllocation}
use scos.Shipping.Allocation.Snapshot.{IsStock, snapshot_valid-IsStock}
use scos.Shipping.Allocation.Plan.{SuppliedBy, IsNearestPlan}
use scos.Shipping.Charge.Limit.{is_shipping_within_limit_lem}
use scos.Ordering.Request.{OrderRequest}
use scos.Ordering.Key.{submission_key_valid}
use scos.Ordering.Number.{matches_order_number}
use scos.Ordering.Estimate.{EstimateBase, Shipping, OrderEstimate, valid, estimate_order}
use scos.Ordering.Estimate.Covered.{estimate_order-validated}
use scos.Ordering.Estimate.Laws.{
  IsCharged, net_cents, IsBase, IsShipped, within_limit, over_limit, overflow, IsEstimate, short,
  shipped, estimate_order-IsEstimate, supplied-IsLength,
}
use scos.Ordering.Order.{
  create_order, NewOrder, assert_allocations, order_allocation, has_length, create_from_valid,
}
use scos.Ordering.Order.Covering.{Gives, assert_allocations-accepts}

discount-le : (q : ℕ) → 150 * q * percent_for q ≤ 15_000 * q
discount-le q = omega (arith, mul-le-mul_left (150 * q) (percent_for_bound q))

limit-true : (c b : ℕ) → b ≤ c * 15 / 100 → leb (b * 100) (c * 15) ≡ true
limit-true c b h = ground arith

module _ {D : Type 0} ⦃d : Decimals D⦄ (x : IsExact D) where
  equals-Cents : (m n : Money D) (c : ℕ) → Cents x m c → Cents x n c → equals m n ≡ true
  unfolding equals
  equals-Cents m n c h k = x.equals-units m.amount n.amount 2 c c h.0 k.0 ∙ ==-self c

module _ {N D : Type 0} ⦃f : Floats N⦄ ⦃z : Zod N⦄ ⦃d : Decimals D⦄ ⦃t : Numerals N D⦄
    (ieee : IsIeee N) (schemas : IsZod N) (x : IsExact D) (numeral : IsNumeral N D ieee x) where
  all-has_length :
      (p : ShippingPlan N)
      → All (λ a. IsLength ieee max_distance_km a.distance_km) p
      → all has_length p ≡ true
  all-has_length [] h = refl
  all-has_length (a ∷ p) ((within, nonneg), h) =
      rw (ieee.is_finite_of_within _ _ within, nonneg) (all-has_length p h)

  module _ (order_number key : Text) (base : EstimateBase N D) (s : Shipping N D) (q b : ℕ)
      (quantity : Quantity ieee schemas base.quantity q) (priced : IsPriced x base.pricing q)
      (charged : IsCharged ieee schemas x numeral s (net_cents ieee schemas x numeral q) b)
      (within : b ≤ net_cents ieee schemas x numeral q * 15 / 100)
      (near : All (λ a. IsLength ieee max_distance_km a.distance_km) s.allocations)
      (covered : assert_allocations base.quantity (map order_allocation s.allocations)
        ≡ ok tt) where
    pub create_from_valid-accepts :
        (o : NewOrder N D) × (create_from_valid order_number key base s ≡ ok o)
    unfolding create_from_valid
    create_from_valid-accepts =
        let (c, pos, le) = quantity in
        let (safe, _, _) = ieee.safe_of_count base.quantity q c in
        let above = ieee.lt_of_count_pos base.quantity q c pos in
        let below = ieee.le_of_count base.quantity q _ c le (omega arith) in
        let read = natural_of_count base.quantity q c in
        let p = base.pricing in
        let (difference, e, rest) =
          subtract-Cents x p.merchandise_subtotal p.discount_amount _ _ priced.subtotal
            priced.discount (discount-le q) in
        let (sum, e', sum_cents) =
          add-Cents x p.discounted_merchandise_total s.shipping_cost _ b priced.discounted
            charged.cost charged.total.1 in
        let (price, e'', _) =
          from_decimal-Cents x _ 15_000 (cents-unit_price x q le) (omega arith) in
        let same_difference =
          equals-Cents x difference p.discounted_merchandise_total _ rest priced.discounted in
        let same_cost =
          equals-Cents x s.shipping_cost s.shipping_cost b charged.cost charged.cost in
        let same_total = equals-Cents x sum s.order_total _ sum_cents charged.total in
        let decision =
          is_shipping_within_limit_lem x s.shipping_cost p.discounted_merchandise_total b _
            charged.cost priced.discounted
          ∙ limit-true _ b within in
        rw
          (
            safe,
            above,
            below,
            read,
            covered,
            all-has_length s.allocations near,
            equals-subtotal x q le p.merchandise_subtotal priced.subtotal,
            priced.rate,
            text_eq_refl (discount_rate_for q),
            equals-discount x q le p.merchandise_subtotal p.discount_amount priced.subtotal
                priced.discount,
            e,
            same_difference,
            charged.charged,
            same_cost,
            decision,
            e',
            same_total,
            e'',
          )
          (_, refl)

  supplied-Gives :
      (destination : GeoPoint N) (a : WarehouseAllocation N) (inventory : InventorySnapshot N)
      → All (IsStock ieee schemas) inventory
      → SuppliedBy destination inventory a
      → Gives a
  supplied-Gives destination a [] h m = absurd m
  supplied-Gives destination a (w ∷ ws) ((_, _, id, name, _), h) (inl t) =
      (rw t.same_id id, rw t.same_name name, t.positive)
  supplied-Gives destination a (w ∷ ws) (_, h) (inr m) = supplied-Gives destination a ws h m

  module _ (order_number key : Text) (request : OrderRequest N) (inventory : InventorySnapshot N)
      (on_earth : IsOnEarth ieee schemas request.destination)
      (stock : All (IsStock ieee schemas) inventory) (base : EstimateBase N D)
      (s : Shipping N D) where
    -- A plan within the limit is accepted with the base that it was estimated for.
    within-accepts :
        (base' : EstimateBase N D) (s' : Shipping N D) (q b : ℕ)
        → Quantity ieee schemas request.quantity q
        → IsBase ieee schemas x numeral request q base'
        → IsNearestPlan q request.destination inventory s'.allocations
        → IsCharged ieee schemas x numeral s' (net_cents ieee schemas x numeral q) b
        → b ≤ net_cents ieee schemas x numeral q * 15 / 100
        → (o : NewOrder N D) × (create_from_valid order_number key base' s' ≡ ok o)
    within-accepts base' s' q b (c, pos, le) (same, _, priced) nearest charged within =
        let near =
          All-map
            (λ a m.
              supplied-IsLength ieee schemas x numeral request.destination on_earth a inventory
                stock m)
            s'.allocations nearest.supplied in
        let gives =
          All-map (λ a m. supplied-Gives request.destination a inventory stock m) s'.allocations
            nearest.supplied in
        let counted : f.count base'.quantity ≡ some q = rw same c in
        create_from_valid-accepts order_number key base' s' q b (counted, pos, le) priced charged
          within near
          (assert_allocations-accepts ieee base'.quantity q counted (omega (arith, le))
            s'.allocations pos nearest.fulfils gives nearest.distinct)

    shipped-accepts :
        (base' : EstimateBase N D) (p : ShippingPlan N) (q : ℕ) (r : Result (OrderEstimate N D))
        → Quantity ieee schemas request.quantity q
        → IsBase ieee schemas x numeral request q base'
        → IsNearestPlan q request.destination inventory p
        → IsShipped ieee schemas x numeral base' p (net_cents ieee schemas x numeral q) r
        → r ≡ ok (valid base s)
        → (o : NewOrder N D) × (create_from_valid order_number key base s ≡ ok o)
    shipped-accepts base' p q _ quantity is_base nearest (within_limit s' b same charged le) h =
        let same_base : base' ≡ base = ground arith in
        let same_shipping : s' ≡ s = ground arith in
        rw (← same_base, ← same_shipping)
          (within-accepts base' s' q b quantity is_base (rw same nearest) charged le)
    shipped-accepts base' p q _ quantity is_base nearest (over_limit s' b same charged le) h = cc
    shipped-accepts base' p q _ quantity is_base nearest (overflow cost b e k le bound much) h = cc

    estimated-accepts :
        (q : ℕ) (r : Result (OrderEstimate N D))
        → Quantity ieee schemas request.quantity q
        → IsEstimate ieee schemas x numeral request inventory q r
        → r ≡ ok (valid base s)
        → (o : NewOrder N D) × (create_from_valid order_number key base s ≡ ok o)
    estimated-accepts q _ quantity (short b is_base below) h = cc
    estimated-accepts q r quantity (shipped b p _ is_base nearest ends) h =
        shipped-accepts b p q r quantity is_base nearest ends h

  -- `createOrder` accepts every valid estimate of `estimateOrder`, with a number and a key that match
  -- their patterns.
  pub create_order-accepts :
      (order_number key : Text) (request : OrderRequest N) (inventory : InventorySnapshot N)
      (base : EstimateBase N D) (s : Shipping N D)
      → estimate_order request inventory ≡ ok (valid base s)
      → matches_order_number order_number ≡ true
      → submission_key_valid N key ≡ true
      → (o : NewOrder N D) × (create_order order_number key (valid base s) ≡ ok o)
  unfolding create_order
  create_order-accepts order_number key request inventory base s h number_ok key_ok =
      let (quantity_ok, destination_ok, stocked) =
        estimate_order-validated ieee schemas x numeral base s request inventory h in
      let (q, quantity, estimated) =
        estimate_order-IsEstimate ieee schemas x numeral request inventory quantity_ok
          destination_ok stocked in
      rw (number_ok, key_ok)
        (estimated-accepts order_number key request inventory
          (IsOnEarth-of_valid ieee schemas request.destination destination_ok)
          (snapshot_valid-IsStock ieee schemas inventory stocked).0 base s q _ quantity estimated h)
