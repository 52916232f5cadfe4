-- ===== src/Shared/Money.antt =====
-- `packages/core/src/domain/shared/money.ts` and `product.ts`: amounts at cent scale that fit
-- NUMERIC(12, 2), and the commercial constants.
pub mod Laws
use scos.Prelude.{ℕ, ◌/◌, ◌*◌, Bool, true, false, not, ◌||◌, ltb, if◌then◌else◌, Text}
use scos.Decimal.{Decimals}
use scos.Shared.Errors.{Result, ok, throws, DomainErrorCode, invalid_amount, amount_out_of_range}

-- MONEY_SCALE
abbrev pub money_scale : ℕ
money_scale = 2

-- MONEY_MAX_STRING in cents
abbrev pub money_max_cents : ℕ
money_max_cents = 999_999_999_999

-- A constructed Money; its amount is private to the class.
pub record Money (D : Type 0) : Type 0 where
  pub amount : D

module _ {D : Type 0} ⦃d : Decimals D⦄ where
  open d use {
    decimal, is_finite, less_than, greater_than, plus, minus, decimal_places, abs, round_half_up,
  }

  -- MONEY_MAX
  pub money_max : D
  money_max = decimal money_max_cents money_scale

  -- `Money.fromDecimal`
  unfoldable pub from_decimal : D → Result (Money D)
  unfolding money_max
  from_decimal a =
      if not (is_finite a) || less_than a (decimal 0 0)
      then throws invalid_amount
      else if ltb money_scale (decimal_places a)
      then throws invalid_amount
      else if greater_than a money_max
      then throws amount_out_of_range
      else ok (record { amount = abs a })

  -- `Money.roundToCents`
  unfoldable pub round_to_cents : D → Result (Money D)
  unfolding from_decimal
  round_to_cents a = from_decimal (round_half_up money_scale a)

  -- `Money.prototype.plus`, `minus` and `equals`
  unfoldable pub add : Money D → Money D → Result (Money D)
  unfolding from_decimal
  add x y = from_decimal (plus x.amount y.amount)

  unfoldable pub subtract : Money D → Money D → Result (Money D)
  unfolding from_decimal
  subtract x y = from_decimal (minus x.amount y.amount)

  unfoldable pub equals : Money D → Money D → Bool
  equals x y = d.equals x.amount y.amount

  -- `Money.prototype.toString`
  unfoldable pub to_string : Money D → Text
  to_string x = d.to_fixed money_scale x.amount

  -- `product.ts`: UNIT_PRICE, UNIT_WEIGHT_KG, SHIPPING_RATE_PER_KG_KM, SHIPPING_LIMIT_RATIO
  unfoldable pub unit_price : D
  unit_price = decimal 150 0

  unfoldable pub unit_weight_kg : D
  unit_weight_kg = decimal 365 3

  unfoldable pub shipping_rate_per_kg_km : D
  shipping_rate_per_kg_km = decimal 1 2

  unfoldable pub shipping_limit_ratio : D
  shipping_limit_ratio = decimal 15 2

-- `quantity.ts`: MAX_QUANTITY, floor(9999999999.99 / 150)
abbrev pub max_quantity : ℕ
max_quantity = money_max_cents / (150 * 100)
