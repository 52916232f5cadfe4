-- ===== src/Http/Conformance.antt =====
-- The amounts of an Order response against the schemas of `apps/api/src/http/schemas.ts`.
use scos.Prelude.{◌≡◌, true, Text, arith, Bool-cases, inl, inr}
use scos.Js.{Floats, natural}
use scos.Decimal.Plain.{decimal_of_text}
use scos.Zod.{Zod}
use scos.Decimal.{Decimals, IsExact}
use scos.Shared.Errors.{Result, ok, throws}
use scos.Shared.Money.{Money, from_decimal, add, subtract, to_string}
use scos.Shared.Money.Laws.{Cents_of_from_decimal}
use scos.Ordering.Order.{Order, StoredOrder, order_amount, matches_discount_rate}
use scos.Ordering.Order.Amounts.{matches_plain_decimal, parse, restore_order}
use scos.Ordering.Order.Amounts.Printed.{matches_money, to_string-matches_money}
use scos.Http.Bodies.{OrderResponse, order_body}

order_amount-ok :
    {D : Type 0} (r : Result (Money D)) {m : Money D} → order_amount r ≡ ok m → r ≡ ok m
order_amount-ok (ok n) h = h
order_amount-ok (throws e) h = cc

-- The texts of a body match their schemas.
pub record Conforms {N : Type 0} (body : OrderResponse N) : Type 0 where
  pub unit_price_ok : matches_money body.unit_price ≡ true
  pub subtotal_ok : matches_money body.merchandise_subtotal ≡ true
  pub rate_ok : matches_discount_rate body.discount_rate ≡ true
  pub discount_ok : matches_money body.discount_amount ≡ true
  pub discounted_ok : matches_money body.discounted_merchandise_total ≡ true
  pub shipping_ok : matches_money body.shipping_cost ≡ true
  pub total_ok : matches_money body.order_total ≡ true

module _ {D : Type 0} ⦃d : Decimals D⦄ (x : IsExact D) (m : Money D) where
  prints : (a : D) → from_decimal a ≡ ok m → matches_money (to_string m) ≡ true
  prints a h =
      let (c, u, cents) = Cents_of_from_decimal x a m h in to_string-matches_money x m c cents

  prints-parsed : (t : Text) → order_amount (parse t) ≡ ok m → matches_money (to_string m) ≡ true
  unfolding parse
  prints-parsed t h =
      let parsed : parse t ≡ ok m = order_amount-ok (parse t) h in
      elim (Bool-cases (matches_plain_decimal t)) [
        | inl plain ↦ prints (decimal_of_text t) (rw plain at parsed)
        | inr other ↦ absurd (let refused = rw other at parsed in cc)
      ]

module _ {N D : Type 0} ⦃f : Floats N⦄ ⦃z : Zod N⦄ ⦃d : Decimals D⦄ (stored : StoredOrder N)
    (order : Order N D) (h : restore_order stored ≡ ok order) where
  rate_kept :
      (matches_discount_rate stored.discount_rate ≡ true)
      × (order.facts.discount_rate ≡ stored.discount_rate)
  unfolding restore_order
  rate_kept = ground arith

  price_read : order_amount (parse stored.unit_price) ≡ ok order.facts.unit_price
  unfolding restore_order
  price_read = ground arith

  discount_read : order_amount (parse stored.discount_amount) ≡ ok order.facts.discount_amount
  unfolding restore_order
  discount_read = ground arith

  shipping_read : order_amount (parse stored.shipping_cost) ≡ ok order.facts.shipping_cost
  unfolding restore_order
  shipping_read = ground arith

  subtotal_made :
      order_amount (
        from_decimal
          (d.times order.facts.unit_price.amount (d.decimal (natural stored.quantity) 0)))
      ≡ ok order.facts.merchandise_subtotal
  unfolding restore_order
  subtotal_made = ground arith

  discounted_made :
      order_amount (subtract order.facts.merchandise_subtotal order.facts.discount_amount)
      ≡ ok order.facts.discounted_merchandise_total
  unfolding restore_order
  discounted_made = ground arith

  total_made :
      order_amount (add order.facts.discounted_merchandise_total order.facts.shipping_cost)
      ≡ ok order.facts.order_total
  unfolding restore_order
  total_made = ground arith

  -- If an Order is restored from its stored row, every amount of the body that it is answered with
  -- matches the schema of amounts, and its rate the schema of rates.
  pub order_body-Conforms : IsExact D → Conforms (order_body order)
  unfolding order_body subtract add
  order_body-Conforms x = record {
    unit_price_ok = prints-parsed x _ stored.unit_price price_read;
    subtotal_ok = prints x _ _ (order_amount-ok _ subtotal_made);
    rate_ok = rw rate_kept.1 rate_kept.0;
    discount_ok = prints-parsed x _ stored.discount_amount discount_read;
    discounted_ok = prints x _ _ (order_amount-ok _ discounted_made);
    shipping_ok = prints-parsed x _ stored.shipping_cost shipping_read;
    total_ok = prints x _ _ (order_amount-ok _ total_made);
  }
