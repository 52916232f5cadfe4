-- ===== src/Ordering/Order/Amounts.antt =====
-- `restoreOrder` and the stored amounts that it parses.
pub mod Printed
use scos.Prelude.{
  Bool, true, not, ◌&&◌, [], ◌∷◌, all, length, leb, ltb, if◌then◌else◌, Text, ◌==◌, Option, some,
  none,
}
use scos.Js.{Floats, whole}
use scos.Zod.{Zod}
use scos.Decimal.{Decimals}
use scos.Decimal.Plain.{decimal_of_text}
use scos.Shared.Errors.{Result, ok, throws, invalid_amount, ◌>>=◌, ◌>>◌}
use scos.Shared.Money.{Money, from_decimal, add, subtract}
use scos.Shared.Schemas.{geo_point_valid}
use scos.Ordering.Order.{
  Order, StoredOrder, invariant, order_amount, is_digit, matches_discount_rate, assert_allocations,
  assert_submission_key,
}
use scos.Js.{natural}

-- The digits before a point, and what follows the point, if there is one.
unfoldable pub split_point : Text → Text × Option Text
split_point [] = ([], none)
split_point (c ∷ t) =
    let rest = split_point t in if c == b'.' then ([], some t) else (c ∷ rest.0, rest.1)

abbrev pub fraction_ok : Option Text → Bool
fraction_ok none = true
fraction_ok (some t) = leb 1 (length t) && leb (length t) 2 && all is_digit t

-- `PLAIN_DECIMAL.test(value)`: /^\d{1,10}(?:\.\d{1,2})?$/
unfoldable pub matches_plain_decimal : Text → Bool
unfolding split_point
matches_plain_decimal value =
    let parts = split_point value in
    leb 1 (length parts.0) && leb (length parts.0) 10 && all is_digit parts.0 && fraction_ok parts.1

module _ {D : Type 0} ⦃d : Decimals D⦄ where
  -- `Money.parse`
  unfoldable pub parse : Text → Result (Money D)
  parse value =
      if not (matches_plain_decimal value)
      then throws invalid_amount
      else from_decimal (decimal_of_text value)

  -- `restoreOrder`
  unfoldable pub restore_order :
      {N : Type 0} ⦃f : Floats N⦄ ⦃z : Zod N⦄ → StoredOrder N → Result (Order N D)
  restore_order {N} ⦃f⦄ stored = do
    invariant (ltb 0 (length stored.id))
    invariant (ltb 0 (length stored.order_number))
    assert_submission_key N stored.submission_key
    invariant (f.is_safe_integer stored.quantity && f.lt (whole 0) stored.quantity)
    invariant (geo_point_valid stored.destination)
    invariant (matches_discount_rate stored.discount_rate)
    assert_allocations stored.quantity stored.allocations
    unit_price ← order_amount (parse stored.unit_price)
    discount_amount ← order_amount (parse stored.discount_amount)
    shipping_cost ← order_amount (parse stored.shipping_cost)
    subtotal ←
        order_amount
          (from_decimal (d.times unit_price.amount (d.decimal (natural stored.quantity) 0)))
    discounted ← order_amount (subtract subtotal discount_amount)
    order_total ← order_amount (add discounted shipping_cost)
    ok (record {
      id = stored.id;
      facts = record {
        order_number = stored.order_number;
        submission_key = stored.submission_key;
        quantity = stored.quantity;
        destination = stored.destination;
        unit_price = unit_price;
        merchandise_subtotal = subtotal;
        discount_rate = stored.discount_rate;
        discount_amount = discount_amount;
        discounted_merchandise_total = discounted;
        shipping_cost = shipping_cost;
        order_total = order_total;
        allocations = stored.allocations;
      };
    })
