-- ===== src/Pricing/Exact.antt =====
-- Merchandise amounts in cents.
use native.Mathlib.Nat.{mul-le-mul_left}
use scos.Prelude.{ℕ, ◌*◌, ◌-◌, ◌^◌, ◌≤◌, ◌≡◌, ◌∙◌, ◌==◌, true, refl, some, arith}
use scos.Decimal.{Decimals, IsExact}
use scos.Decimal.Plain.{decimal_of_text}
use scos.Shared.Errors.{ok}
use scos.Shared.Money.{Money, max_quantity, unit_price}
use scos.Shared.Money.Laws.{Cents, from_decimal-Cents}
use scos.Pricing.{price_merchandise, MerchandisePricing, discount_rate_for}
use scos.Pricing.Tiers.{percent_for, percent_for_bound, plain_decimal-discount_rate_for}

pub ==-self : (n : ℕ) → (n == n) ≡ true
==-self n = ground arith

module _ {D : Type 0} ⦃d : Decimals D⦄ (x : IsExact D) where
  open x use {units}

  -- What a quantity costs, in cents: the unit price, the subtotal, the discount and the rest.
  pub record IsPriced (p : MerchandisePricing D) (q : ℕ) : Type 0 where
    pub unit : Cents x p.unit_price 15_000
    pub subtotal : Cents x p.merchandise_subtotal (15_000 * q)
    pub rate : p.discount_rate ≡ discount_rate_for q
    pub discount : Cents x p.discount_amount (150 * q * percent_for q)
    pub discounted : Cents x p.discounted_merchandise_total (15_000 * q - 150 * q * percent_for q)

  units-unit_price : units 0 (unit_price {D = D}) ≡ some 150
  unfolding unit_price
  units-unit_price = x.units-decimal 150 0

  module _ (q : ℕ) (within : q ≤ max_quantity) where
    subtotal : D
    subtotal = d.times unit_price (d.decimal q 0)

    discount : D
    discount = d.times subtotal (decimal_of_text (discount_rate_for q))

    units-subtotal : units 0 subtotal ≡ some (150 * q)
    unfolding subtotal
    units-subtotal =
        x.times-units unit_price (d.decimal q 0) 0 0 150 q units-unit_price (x.units-decimal q 0)
          (omega arith)

    units-rate : units 2 (decimal_of_text {D = D} (discount_rate_for q)) ≡ some (percent_for q)
    unfolding decimal_of_text
    units-rate =
        rw (decimal_of_text, plain_decimal-discount_rate_for q) (x.units-decimal (percent_for q) 2)

    product_bound : 150 * q * percent_for q ≤ 3000 * q
    product_bound = omega (arith, mul-le-mul_left (150 * q) (percent_for_bound q))

    units-discount : units 2 discount ≡ some (150 * q * percent_for q)
    unfolding discount
    units-discount =
        x.times-units subtotal _ 0 2 (150 * q) (percent_for q) units-subtotal units-rate
          (omega (arith, product_bound))

    cents-subtotal : units 2 subtotal ≡ some (15_000 * q)
    cents-subtotal =
        let scaled : 15_000 * q ≡ 150 * q * 10 ^ 2 = omega arith in
        rw scaled (x.units-rescale subtotal 0 2 (150 * q) units-subtotal)

    pub cents-unit_price : units 2 (unit_price {D = D}) ≡ some 15_000
    cents-unit_price = x.units-rescale unit_price 0 2 150 units-unit_price

    units-discounted :
        units 2 (d.minus subtotal discount) ≡ some (15_000 * q - 150 * q * percent_for q)
    units-discounted =
        x.minus-units subtotal discount 2 _ _ cents-subtotal units-discount
          (omega (arith, product_bound)) (omega arith)

    -- Pricing a quantity of at most the supported one succeeds, and its amounts are exactly the unit
    -- price times the quantity, the tier's percentage of it, and the difference.
    pub price_merchandise-IsPriced :
        (p : MerchandisePricing D) × (price_merchandise q ≡ ok p) × IsPriced p q
    unfolding price_merchandise subtotal discount
    price_merchandise-IsPriced =
        let (price, e, price_cents) =
          from_decimal-Cents x unit_price 15_000 cents-unit_price (omega arith) in
        let (sub, e', sub_cents) = from_decimal-Cents x subtotal _ cents-subtotal (omega arith) in
        let (off, e'', off_cents) =
          from_decimal-Cents x discount _ units-discount (omega (arith, product_bound)) in
        let (net, e''', net_cents) =
          from_decimal-Cents x (d.minus subtotal discount) _ units-discounted (omega arith) in
        (
          record {
            unit_price = price;
            merchandise_subtotal = sub;
            discount_rate = discount_rate_for q;
            discount_amount = off;
            discounted_merchandise_total = net;
          },
          rw (e, e', e'', e'''),
          record {
            unit = price_cents;
            subtotal = sub_cents;
            rate = refl;
            discount = off_cents;
            discounted = net_cents;
          },
        )

    -- The amounts that a pricing is checked against when it becomes an Order.
    pub equals-subtotal :
        (m : Money D)
        → Cents x m (15_000 * q)
        → d.equals m.amount (d.times unit_price (d.decimal q 0)) ≡ true
    unfolding subtotal
    equals-subtotal m h =
        x.equals-units m.amount subtotal 2 _ _ h.0 cents-subtotal ∙ ==-self (15_000 * q)

    pub equals-discount :
        (m n : Money D)
        → Cents x m (15_000 * q)
        → Cents x n (150 * q * percent_for q)
        → d.equals n.amount (d.times m.amount (decimal_of_text (discount_rate_for q))) ≡ true
    equals-discount m n h k =
        let exact =
          x.times-units m.amount _ 2 2 (15_000 * q) (percent_for q) h.0 units-rate
            (omega (arith, product_bound)) in
        let scaled : 150 * q * percent_for q * 10 ^ 2 ≡ 15_000 * q * percent_for q = ground arith in
        x.equals-units n.amount _ 4 _ _ (rw (← scaled) (x.units-rescale n.amount 2 2 _ k.0)) exact
        ∙ ==-self (15_000 * q * percent_for q)
