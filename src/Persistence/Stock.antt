-- ===== src/Persistence/Stock.antt =====
-- `packages/persistence/src/submission-store.ts` and `inventory-reader.ts`: the warehouse rows, as
-- they are read, locked and deducted from, and the options of a transaction.
pub mod Laws
use scos.Prelude.{
  ℕ, ◌+◌, ◌-◌, Bool, true, false, not, ◌&&◌, ◌||◌, Option, some, none, List, [], ◌∷◌, map, leb,
  ◌==◌, if◌then◌else◌, Text, text_eq,
}
use scos.Js.{Floats, whole}
use scos.Shared.Errors.{Result}
use scos.Shipping.Allocation.{WarehouseStock, InventorySnapshot}
use scos.Ordering.Order.{OrderAllocation, NewOrder}
use scos.Ordering.Submit.{Action, and_then, pure, InventoryReader}

-- A row of `warehouses`; its stock is an integer column that is not negative.
pub record WarehouseStockRow (N : Type 0) : Type 0 where
  pub id : Text
  pub name : Text
  pub latitude : N
  pub longitude : N
  pub stock : ℕ

pub record PrismaSubmissionStoreOptions (N : Type 0) : Type 0 where
  pub max_wait_ms : Option N
  pub timeout_ms : Option N
  pub lock_timeout_ms : Option N

pub record ResolvedOptions (N : Type 0) : Type 0 where
  pub max_wait_ms : N
  pub timeout_ms : N
  pub lock_timeout_ms : N

module _ {N : Type 0} ⦃f : Floats N⦄ where
  abbrev pub to_warehouse_stock : WarehouseStockRow N → WarehouseStock N
  to_warehouse_stock row = record {
    warehouse_id = row.id;
    warehouse_name = row.name;
    latitude = row.latitude;
    longitude = row.longitude;
    available = whole row.stock;
  }

  -- `toInventorySnapshot`
  unfoldable pub to_inventory_snapshot : List (WarehouseStockRow N) → InventorySnapshot N
  to_inventory_snapshot = map to_warehouse_stock

  -- `createPrismaInventoryReader`, over `prisma.warehouse.findMany`
  unfoldable pub create_prisma_inventory_reader :
      {W : Type 0} → Action W (List (WarehouseStockRow N)) → InventoryReader N W
  unfolding to_inventory_snapshot
  create_prisma_inventory_reader find_many = record {
    read_inventory_snapshot = and_then find_many λ rows. pure (to_inventory_snapshot rows);
  }

  abbrev pub allocated : List (OrderAllocation N) → N → N
  allocated [] sum = sum
  allocated (a ∷ rest) sum = allocated rest (f.add sum a.quantity)

  -- `assertAllocationsCoverQuantity`; whether it returns.
  unfoldable pub assert_allocations_cover_quantity : {D : Type 0} → NewOrder N D → Bool
  assert_allocations_cover_quantity order =
      f.eq (allocated order.allocations (whole 0)) order.quantity

  abbrev pub default_or : N → Option N → N
  default_or x none = x
  default_or x (some y) = y

  abbrev pub is_duration : N → Bool
  is_duration x = f.is_safe_integer x && not (f.lt x (whole 1))

  -- DEFAULT_SUBMISSION_TRANSACTION_OPTIONS, where an option is absent
  abbrev pub with_defaults : PrismaSubmissionStoreOptions N → ResolvedOptions N
  with_defaults options = record {
    max_wait_ms = default_or (whole 5000) options.max_wait_ms;
    timeout_ms = default_or (whole 15_000) options.timeout_ms;
    lock_timeout_ms = default_or (whole 10_000) options.lock_timeout_ms;
  }

  -- `resolveOptions`; `none` is the RangeError.
  unfoldable pub resolve_options : PrismaSubmissionStoreOptions N → Option (ResolvedOptions N)
  resolve_options options =
      let resolved = with_defaults options in
      if not (
        is_duration resolved.max_wait_ms
        && is_duration resolved.timeout_ms
        && is_duration resolved.lock_timeout_ms)
      then none
      else if f.le resolved.timeout_ms resolved.lock_timeout_ms
      then none
      else some resolved

module _ {N : Type 0} where
  -- `WHERE id = … AND stock >= …`
  abbrev pub selects : Text → ℕ → WarehouseStockRow N → Bool
  selects id quantity row = text_eq row.id id && leb quantity row.stock

  abbrev pub deducted : ℕ → WarehouseStockRow N → WarehouseStockRow N
  deducted quantity row = record {
    id = row.id;
    name = row.name;
    latitude = row.latitude;
    longitude = row.longitude;
    stock = row.stock - quantity;
  }

  -- The `UPDATE`: the rows after it, and how many it updated.
  unfoldable pub update_stock : Text → ℕ → List (WarehouseStockRow N) → List (WarehouseStockRow N)
  update_stock id quantity [] = []
  update_stock id quantity (row ∷ rows) =
      let rest = update_stock id quantity rows in
      if selects id quantity row then deducted quantity row ∷ rest else row ∷ rest

  unfoldable pub updated : Text → ℕ → List (WarehouseStockRow N) → ℕ
  updated id quantity [] = 0
  updated id quantity (row ∷ rows) =
      let rest = updated id quantity rows in if selects id quantity row then 1 + rest else rest

  -- The guarded deductions of `saveAcceptedOrder`, a warehouse and a quantity each; `none` is the
  -- error that rolls the transaction back.
  unfoldable pub deduct :
      List (Text × ℕ) → List (WarehouseStockRow N) → Option (List (WarehouseStockRow N))
  unfolding update_stock updated
  deduct [] rows = some rows
  deduct ((id, quantity) ∷ rest) rows =
      let after = deduct rest (update_stock id quantity rows) in
      if not (updated id quantity rows == 1) then none else after
