-- ===== src/Shipping/Charge/Limit.antt =====
-- The published limit and the decision against the exact one.
use scos.Prelude.{ℕ, ◌*◌, ◌/◌, ◌≡◌, sym, ◌∙◌, some, arith, leb}
use scos.Decimal.{Decimals, IsExact}
use scos.Shared.Errors.{ok}
use scos.Shared.Money.{Money, shipping_limit_ratio}
use scos.Shared.Money.Laws.{Cents, from_decimal-Cents}
use scos.Shipping.Charge.{
  shipping_limit_for, published_shipping_limit_for, is_shipping_within_limit,
}

module _ {D : Type 0} ⦃d : Decimals D⦄ (x : IsExact D) where
  open x use {units}

  units-ratio : units 2 (shipping_limit_ratio {D = D}) ≡ some 15
  unfolding shipping_limit_ratio
  units-ratio = x.units-decimal 15 2

  -- The exact limit, in units of a hundredth of a cent.
  pub units-shipping_limit_for :
      (total : Money D) (c : ℕ)
      → Cents x total c
      → units 4 (shipping_limit_for total) ≡ some (c * 15)
  unfolding shipping_limit_for
  units-shipping_limit_for total c h =
      x.times-units total.amount shipping_limit_ratio 2 2 c 15 h.0 units-ratio (omega (arith, h.1))

  pub published_shipping_limit_for-Cents :
      (total : Money D) (c : ℕ)
      → Cents x total c
      → (limit : Money D) × (published_shipping_limit_for total ≡ ok limit)
        × Cents x limit (c * 15 / 100)
  unfolding published_shipping_limit_for
  published_shipping_limit_for-Cents total c h =
      from_decimal-Cents x (d.round_down 2 (shipping_limit_for total)) _
        (x.round_down-units (shipping_limit_for total) 2 2 (c * 15)
          (units-shipping_limit_for total c h))
        (omega (arith, h.1))

  -- The decision compares against the exact limit.
  pub is_shipping_within_limit_lem :
      (cost total : Money D) (b c : ℕ)
      → Cents x cost b
      → Cents x total c
      → is_shipping_within_limit cost total ≡ leb (b * 100) (c * 15)
  unfolding is_shipping_within_limit
  is_shipping_within_limit_lem cost total b c h k =
      x.less_than_or_equal_to-units cost.amount (shipping_limit_for total) 4 (b * 100) (c * 15)
        (x.units-rescale cost.amount 2 2 b h.0) (units-shipping_limit_for total c k)

  -- For every shipping cost and merchandise total, a published limit exists, and the decision
  -- against the exact limit is the comparison of the cost with the published one.
  pub published_shipping_limit_for-agrees :
      (cost total : Money D) (b c : ℕ)
      → Cents x cost b
      → Cents x total c
      → (limit : Money D) × (published_shipping_limit_for total ≡ ok limit)
        × (is_shipping_within_limit cost total ≡ d.less_than_or_equal_to cost.amount limit.amount)
  published_shipping_limit_for-agrees cost total b c h k =
      let (limit, e, l) = published_shipping_limit_for-Cents total c k in
      (
        limit,
        e,
        is_shipping_within_limit_lem cost total b c h k
            ∙ truncation b c
            ∙ sym
                (x.less_than_or_equal_to-units cost.amount limit.amount 2 b (c * 15 / 100) h.0 l.0),
      )
    where
      truncation : (b c : ℕ) → leb (b * 100) (c * 15) ≡ leb b (c * 15 / 100)
      truncation b c = ground arith
