-- ===== src/Ordering/Order/Accepted.antt =====
-- What an Order that `createOrder` returns is.
use scos.Prelude.{false≢true, ◌≡◌, ap, ◌∙◌, refl, Bool, true, false, map, Text, arith}
use scos.Js.{Floats}
use scos.Zod.{Zod}
use scos.Decimal.{Decimals}
use scos.Numeral.{Numerals}
use scos.Shared.Errors.{Result, ok, throws}
use scos.Shared.Money.{Money, add, from_decimal}
use scos.Ordering.Order.Covers.{Covers, assert_allocations-Covers}
use scos.Shared.Money
use scos.Shipping.Charge.{is_shipping_within_limit, shipping_cost_for}
use scos.Ordering.Estimate.{
  EstimateBase, Shipping, OrderEstimate, valid, shipping_exceeds_limit, insufficient_stock,
}
use scos.Ordering.Key.{submission_key_valid}
use scos.Ordering.Number.{matches_order_number}
use scos.Ordering.Order.{
  NewOrder, assert_allocations, order_allocation, create_from_valid, create_order,
}

abbrev pub is_ok {ℓ} : {T : Type ℓ} → Result T → Bool
is_ok (ok t) = true
is_ok (throws e) = false

unfoldable pub ok_of {ℓ} : {T : Type ℓ} (r : Result T) → is_ok r ≡ true → (t : T) × (r ≡ ok t)
ok_of (ok t) h = (t, refl)
ok_of (throws e) h = absurd (false≢true h)

module _ {N D : Type 0} ⦃f : Floats N⦄ ⦃z : Zod N⦄ ⦃d : Decimals D⦄ ⦃t : Numerals N D⦄ where
  -- What was checked of an accepted Order and the estimate that it came from.
  pub record IsAcceptedFrom (order_number key : Text) (base : EstimateBase N D) (s : Shipping N D)
      (o : NewOrder N D) : Type 0 where
    pub same_number : o.order_number ≡ order_number
    pub same_key : o.submission_key ≡ key
    pub same_quantity : o.quantity ≡ base.quantity
    pub same_destination : o.destination ≡ base.destination
    pub unit_price : from_decimal Money.unit_price ≡ ok o.unit_price
    pub same_subtotal : o.merchandise_subtotal ≡ base.pricing.merchandise_subtotal
    pub same_rate : o.discount_rate ≡ base.pricing.discount_rate
    pub same_discount : o.discount_amount ≡ base.pricing.discount_amount
    pub same_discounted : o.discounted_merchandise_total ≡ base.pricing.discounted_merchandise_total
    pub same_cost : o.shipping_cost ≡ s.shipping_cost
    pub same_total : o.order_total ≡ s.order_total
    pub same_allocations : o.allocations ≡ map order_allocation s.allocations
    pub number_matches : matches_order_number o.order_number ≡ true
    pub key_valid : submission_key_valid N o.submission_key ≡ true
    pub covered : Covers o.quantity o.allocations
    pub charged :
        (charge : Money D) × (shipping_cost_for s.allocations ≡ ok charge)
        × (Money.equals o.shipping_cost charge ≡ true)
    pub within_limit :
        is_shipping_within_limit o.shipping_cost o.discounted_merchandise_total ≡ true

  module _ (order_number key : Text) (base : EstimateBase N D) (s : Shipping N D) (o : NewOrder N D)
      (h : create_from_valid order_number key base s ≡ ok o) where
    copies_keys : (o.order_number ≡ order_number) × (o.submission_key ≡ key)
    unfolding create_from_valid
    copies_keys = ground arith

    copies_request : (o.quantity ≡ base.quantity) × (o.destination ≡ base.destination)
    unfolding create_from_valid
    copies_request = ground arith

    copies_cost :
        (o.shipping_cost ≡ s.shipping_cost)
        × (o.discounted_merchandise_total ≡ base.pricing.discounted_merchandise_total)
    unfolding create_from_valid
    copies_cost = ground arith

    has_price : is_ok (from_decimal {D = D} Money.unit_price) ≡ true
    unfolding create_from_valid
    has_price = ground arith

    copies_price_of :
        (price : Money D) → from_decimal Money.unit_price ≡ ok price → price ≡ o.unit_price
    unfolding create_from_valid
    copies_price_of price e = ground (arith, e)

    copies_price : from_decimal Money.unit_price ≡ ok o.unit_price
    copies_price =
        let (price, e) = ok_of (from_decimal Money.unit_price) has_price in
        e ∙ ap ok (copies_price_of price e)

    copies_pricing :
        (o.merchandise_subtotal ≡ base.pricing.merchandise_subtotal)
        × (o.discount_rate ≡ base.pricing.discount_rate)
        × (o.discount_amount ≡ base.pricing.discount_amount)
    unfolding create_from_valid
    copies_pricing = ground arith

    copies_total :
        (o.order_total ≡ s.order_total) × (o.allocations ≡ map order_allocation s.allocations)
    unfolding create_from_valid
    copies_total = ground arith

    covers : assert_allocations base.quantity (map order_allocation s.allocations) ≡ ok tt
    unfolding create_from_valid
    covers = ground arith

    within :
        is_shipping_within_limit s.shipping_cost base.pricing.discounted_merchandise_total ≡ true
    unfolding create_from_valid
    within = ground arith

    is_charged :
        (charge : Money D) × (shipping_cost_for s.allocations ≡ ok charge)
        × (Money.equals s.shipping_cost charge ≡ true)
    unfolding create_from_valid
    is_charged =
        let (charge, charges) = ok_of (shipping_cost_for s.allocations) (ground arith) in
        (charge, charges, ground (arith, charges))

    create_from_valid-IsAcceptedFrom :
        matches_order_number order_number ≡ true
        → submission_key_valid N key ≡ true
        → IsAcceptedFrom order_number key base s o
    create_from_valid-IsAcceptedFrom number_ok key_ok = record {
      same_number = copies_keys.0;
      same_key = copies_keys.1;
      same_quantity = copies_request.0;
      same_destination = copies_request.1;
      unit_price = copies_price;
      same_subtotal = copies_pricing.0;
      same_rate = copies_pricing.1;
      same_discount = copies_pricing.2;
      same_discounted = copies_cost.1;
      same_cost = copies_cost.0;
      same_total = copies_total.0;
      same_allocations = copies_total.1;
      number_matches = rw copies_keys.0 number_ok;
      key_valid = rw copies_keys.1 key_ok;
      covered =
          rw (copies_request.0, copies_total.1)
            (assert_allocations-Covers base.quantity (map order_allocation s.allocations) covers);
      charged = rw copies_cost.0 is_charged;
      within_limit = rw (copies_cost.0, copies_cost.1) within;
    }

  -- If `createOrder` returns an Order, the estimate was valid, the number and the key match their
  -- patterns, the Order has the unit price and copies each other amount, the quantity, the
  -- destination and the allocations of the estimate; its allocations are from distinct named
  -- warehouses, each a positive safe integer, and sum to the quantity; and the shipping cost is the
  -- charge for the estimate's plan and within the limit.
  pub create_order-IsAcceptedFrom :
      (order_number key : Text) (estimate : OrderEstimate N D) (o : NewOrder N D)
      → create_order order_number key estimate ≡ ok o
      → (base : EstimateBase N D) × (s : Shipping N D) × (estimate ≡ valid base s)
        × IsAcceptedFrom order_number key base s o
  unfolding create_order
  create_order-IsAcceptedFrom order_number key (valid base s) o h =
      let checks : (matches_order_number order_number ≡ true)
          × (submission_key_valid N key ≡ true)
          × (create_from_valid order_number key base s ≡ ok o) =
        ground arith in
      (
        base,
        s,
        refl,
        create_from_valid-IsAcceptedFrom order_number key base s o checks.2 checks.0 checks.1,
      )
  create_order-IsAcceptedFrom order_number key (shipping_exceeds_limit base s) o h =
      absurd (ground arith)
  create_order-IsAcceptedFrom order_number key (insufficient_stock base) o h = absurd (ground arith)
