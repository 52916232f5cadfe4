-- ===== src/Pricing.antt =====
-- `packages/core/src/domain/pricing/pricing.ts`: volume discounts and merchandise pricing.
pub mod Tiers
pub mod Exact
use scos.Prelude.{ℕ, Option, some, none, List, [], ◌∷◌, Bool, leb, if◌then◌else◌, Text, codes}
use scos.Decimal.{Decimals}
use scos.Decimal.Plain.{decimal_of_text}
use scos.Shared.Errors.{Result, ok, ◌>>=◌}
use scos.Shared.Money.{Money, from_decimal}
use scos.Shared.Money

-- A two-decimal rate string.
abbrev pub DiscountRate : Type 0
DiscountRate = Text

pub record DiscountTier : Type 0 where
  pub minimum_quantity : ℕ
  pub rate : DiscountRate

-- NO_DISCOUNT_RATE
abbrev pub no_discount_rate : DiscountRate
no_discount_rate = codes "0.00"

abbrev pub tier : ℕ → DiscountRate → DiscountTier
tier q r = record { minimum_quantity = q; rate = r }

-- DISCOUNT_TIERS, highest threshold first
abbrev pub discount_tiers : List DiscountTier
discount_tiers =
    tier 250 (codes "0.20")
    ∷ tier 100 (codes "0.15")
    ∷ tier 50 (codes "0.10")
    ∷ tier 25 (codes "0.05")
    ∷ []

-- `tiers.find((candidate) => quantity >= candidate.minimumQuantity)`
abbrev pub find_tier : ℕ → List DiscountTier → Option DiscountTier
find_tier q [] = none
find_tier q (t ∷ ts) = if leb t.minimum_quantity q then some t else find_tier q ts

-- `discountRateFor`
unfoldable pub discount_rate_for : ℕ → DiscountRate
discount_rate_for q = elim (find_tier q discount_tiers) [
  | none ↦ no_discount_rate
  | some t ↦ t.rate
]

pub record MerchandisePricing (D : Type 0) : Type 0 where
  pub unit_price : Money D
  pub merchandise_subtotal : Money D
  pub discount_rate : DiscountRate
  pub discount_amount : Money D
  pub discounted_merchandise_total : Money D

-- `priceMerchandise`
unfoldable pub price_merchandise : {D : Type 0} ⦃d : Decimals D⦄ → ℕ → Result (MerchandisePricing D)
price_merchandise ⦃d⦄ q = do
  let discount_rate = discount_rate_for q
  let subtotal = d.times Money.unit_price (d.decimal q 0)
  let discount = d.times subtotal (decimal_of_text discount_rate)
  price ← from_decimal Money.unit_price
  merchandise_subtotal ← from_decimal subtotal
  discount_amount ← from_decimal discount
  discounted ← from_decimal (d.minus subtotal discount)
  ok (record {
    unit_price = price;
    merchandise_subtotal = merchandise_subtotal;
    discount_rate = discount_rate;
    discount_amount = discount_amount;
    discounted_merchandise_total = discounted;
  })
