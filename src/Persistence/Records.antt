-- ===== src/Persistence/Records.antt =====
-- `packages/persistence/src/records.ts`: rows as records whose amounts are exact decimal text.
use scos.Prelude.{
  ℕ, Bool, not, ◌||◌, Option, some, none, List, map, ltb, if◌then◌else◌, Text, codes,
}
use scos.Shared.Schemas.{GeoPoint}

-- The methods of `Prisma.Decimal`, a class of the generated client, that the code calls. A text is
-- converted by the constructor.
pub record PrismaDecimals (P : Type 0) : Type 0 where
  pub of_text : Text → P
  pub is_finite : P → Bool
  pub decimal_places : P → ℕ
  pub to_fixed : ℕ → P → Text
  pub abs : P → P
  pub greater_than : P → P → Bool
  pub minus : P → P → P
  pub plus : P → P → P

-- `times` with a number
pub record PrismaNumbers (N P : Type 0) : Type 0 where
  pub times : P → N → P

-- A row of `warehouses`, of `order_allocations` and of `orders`; `T` are the times.
pub record Warehouse (N T : Type 0) : Type 0 where
  pub id : Text
  pub name : Text
  pub latitude : N
  pub longitude : N
  pub stock : ℕ
  pub created_at : T
  pub updated_at : T

pub record StoredAllocation (N T : Type 0) : Type 0 where
  pub id : Text
  pub order_id : Text
  pub warehouse_id : Text
  pub quantity : N
  pub created_at : T
  pub updated_at : T

pub record StoredRow (N P T : Type 0) : Type 0 where
  pub id : Text
  pub order_number : Text
  pub submission_key : Text
  pub quantity : N
  pub destination_latitude : N
  pub destination_longitude : N
  pub unit_price : P
  pub discount_rate : P
  pub discount_amount : P
  pub shipping_cost : P
  pub created_at : T
  pub updated_at : T
  pub allocations : List (StoredAllocation N T)

pub record WarehouseRecord (N T : Type 0) : Type 0 where
  pub id : Text
  pub name : Text
  pub latitude : N
  pub longitude : N
  pub stock : ℕ
  pub created_at : T
  pub updated_at : T

pub record OrderAllocationRecord (N T : Type 0) : Type 0 where
  pub id : Text
  pub warehouse_id : Text
  pub quantity : N
  pub created_at : T
  pub updated_at : T

pub record OrderRecord (N T : Type 0) : Type 0 where
  pub id : Text
  pub order_number : Text
  pub submission_key : Text
  pub quantity : N
  pub destination : GeoPoint N
  pub unit_price : Text
  pub discount_rate : Text
  pub discount_amount : Text
  pub shipping_cost : Text
  pub merchandise_subtotal : Text
  pub discounted_merchandise_total : Text
  pub order_total : Text
  pub allocations : List (OrderAllocationRecord N T)
  pub created_at : T
  pub updated_at : T

-- MAX_MONEY
abbrev pub max_money : Text
max_money = codes "9999999999.99"

infixl 20 ◌then_maybe◌
-- The next step, unless one before has thrown.
abbrev pub ◌then_maybe◌ {ℓ} : {A : Type 0} {B : Type ℓ} → Option A → (A → Option B) → Option B
none then_maybe k = none
some a then_maybe k = k a

unfoldable pub to_warehouse_record : {N T : Type 0} → Warehouse N T → WarehouseRecord N T
to_warehouse_record row = record {
  id = row.id;
  name = row.name;
  latitude = row.latitude;
  longitude = row.longitude;
  stock = row.stock;
  created_at = row.created_at;
  updated_at = row.updated_at;
}

unfoldable pub to_order_allocation_record :
    {N T : Type 0} → StoredAllocation N T → OrderAllocationRecord N T
to_order_allocation_record row = record {
  id = row.id;
  warehouse_id = row.warehouse_id;
  quantity = row.quantity;
  created_at = row.created_at;
  updated_at = row.updated_at;
}

module _ {P : Type 0} ⦃p : PrismaDecimals P⦄ where
  -- `formatFixed`; `none` is the Error.
  unfoldable pub format_fixed : P → ℕ → Option Text
  format_fixed value scale =
      if not (p.is_finite value) || ltb scale (p.decimal_places value)
      then none
      else some (p.to_fixed scale value)

  -- `formatMoney`
  unfoldable pub format_money : P → Option Text
  unfolding format_fixed
  format_money value = format_fixed value 2 then_maybe λ formatted.
      if p.greater_than (p.abs value) (p.of_text max_money) then none else some formatted

  -- `formatDiscountRate`
  unfoldable pub format_discount_rate : P → Option Text
  unfolding format_fixed
  format_discount_rate value = format_fixed value 2

  -- `toOrderRecord`
  unfoldable pub to_order_record :
      {N T : Type 0} ⦃m : PrismaNumbers N P⦄ → StoredRow N P T → Option (OrderRecord N T)
  unfolding format_money format_discount_rate to_order_allocation_record
  to_order_record ⦃m⦄ row =
      let subtotal = m.times row.unit_price row.quantity in
      let discounted = p.minus subtotal row.discount_amount in
      let total = p.plus discounted row.shipping_cost in
      format_money row.unit_price then_maybe λ unit_price.
      format_discount_rate row.discount_rate then_maybe λ discount_rate.
      format_money row.discount_amount then_maybe λ discount_amount.
      format_money row.shipping_cost then_maybe λ shipping_cost.
      format_money subtotal then_maybe λ merchandise_subtotal.
      format_money discounted then_maybe λ discounted_merchandise_total.
      format_money total then_maybe λ order_total. some (record {
        id = row.id;
        order_number = row.order_number;
        submission_key = row.submission_key;
        quantity = row.quantity;
        destination = record {
          latitude = row.destination_latitude;
          longitude = row.destination_longitude;
        };
        unit_price = unit_price;
        discount_rate = discount_rate;
        discount_amount = discount_amount;
        shipping_cost = shipping_cost;
        merchandise_subtotal = merchandise_subtotal;
        discounted_merchandise_total = discounted_merchandise_total;
        order_total = order_total;
        allocations = map to_order_allocation_record row.allocations;
        created_at = row.created_at;
        updated_at = row.updated_at;
      })
