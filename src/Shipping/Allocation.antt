-- ===== src/Shipping/Allocation.antt =====
-- `packages/core/src/domain/shipping/allocation.ts`: nearest-first allocation over an inventory
-- snapshot.
pub mod Loop
pub mod Ranking
pub mod Snapshot
pub mod Plan
use scos.Prelude.{
  ℕ, ◌+◌, ◌-◌, Bool, true, false, not, ◌&&◌, Option, some, none, List, [], ◌∷◌, map, min, ltb, ◌==◌,
  if◌then◌else◌, sum_by, Text, codes, text_eq, text_lt,
}
use scos.Js.{Floats, number, text, whole, natural}
use scos.Zod.{Zod, NumberCheck, StringCheck, Issue, is_empty}
use scos.Shared.Errors.{Result, ok, require, invalid_inventory, ◌>>=◌, ◌>>◌}
use scos.Shared.Schemas.{GeoPoint, latitude_schema, longitude_schema}
use scos.Shipping.Distance.{haversine_distance_km}

-- One warehouse's available stock in a snapshot.
pub record WarehouseStock (N : Type 0) : Type 0 where
  pub warehouse_id : Text
  pub warehouse_name : Text
  pub latitude : N
  pub longitude : N
  pub available : N

abbrev pub InventorySnapshot : Type 0 → Type 0
InventorySnapshot N = List (WarehouseStock N)

pub record RankedWarehouse (N : Type 0) : Type 0 where
  pub warehouse_id : Text
  pub warehouse_name : Text
  pub available : N
  pub distance_km : N

pub record WarehouseAllocation (N : Type 0) : Type 0 where
  pub warehouse_id : Text
  pub warehouse_name : Text
  pub quantity : ℕ
  pub distance_km : N

-- A plan has at least one allocation.
abbrev pub ShippingPlan : Type 0 → Type 0
ShippingPlan N = List (WarehouseAllocation N)

-- `seen.has(id)`
abbrev pub contains : Text → List Text → Bool
contains id [] = false
contains id (s ∷ seen) = if text_eq s id then true else contains id seen

abbrev pub allocation : {N : Type 0} → ℕ → RankedWarehouse N → WarehouseAllocation N
allocation units w = record {
  warehouse_id = w.warehouse_id;
  warehouse_name = w.warehouse_name;
  quantity = units;
  distance_km = w.distance_km;
}

abbrev pub name_schema : List StringCheck
name_schema = StringCheck.min_length 1 ∷ []

module _ {N : Type 0} ⦃f : Floats N⦄ where
  -- The loop of `inventorySnapshotSchema`'s refinement: no ID is seen twice.
  abbrev pub unique_ids : List Text → InventorySnapshot N → Bool
  unique_ids seen [] = true
  unique_ids seen (w ∷ ws) =
      not (contains w.warehouse_id seen) && unique_ids (w.warehouse_id ∷ seen) ws

  abbrev pub available_schema : List (NumberCheck N)
  available_schema = NumberCheck.int ∷ NumberCheck.nonnegative ∷ []

  -- `warehouseStockSchema`
  abbrev pub stock_issues : ⦃z : Zod N⦄ → WarehouseStock N → List Issue
  stock_issues ⦃z⦄ w = z.object_issues (
      (codes "warehouseId", z.string_issues name_schema (text w.warehouse_id))
      ∷ (codes "warehouseName", z.string_issues name_schema (text w.warehouse_name))
      ∷ (codes "latitude", z.number_issues latitude_schema (number w.latitude))
      ∷ (codes "longitude", z.number_issues longitude_schema (number w.longitude))
      ∷ (codes "available", z.number_issues available_schema (number w.available))
      ∷ [])

  -- `inventorySnapshotSchema.safeParse(inventory).success`
  unfoldable pub snapshot_valid : ⦃z : Zod N⦄ → InventorySnapshot N → Bool
  snapshot_valid ⦃z⦄ inventory =
      is_empty (z.array_issues (map stock_issues inventory)) && unique_ids [] inventory

  -- `assertValidSnapshot`
  unfoldable pub assert_valid_snapshot : ⦃z : Zod N⦄ → InventorySnapshot N → Result (Unit {0})
  assert_valid_snapshot inventory = require (snapshot_valid inventory) invalid_inventory

  abbrev pub stock_units : WarehouseStock N → ℕ
  stock_units w = natural w.available

  -- `inventory.reduce((sum, warehouse) => sum + warehouse.available, 0)`
  unfoldable pub total_available : InventorySnapshot N → ℕ
  total_available = sum_by stock_units

  abbrev pub location : WarehouseStock N → GeoPoint N
  location w = record { latitude = w.latitude; longitude = w.longitude }

  abbrev pub rank : GeoPoint N → WarehouseStock N → RankedWarehouse N
  rank destination w = record {
    warehouse_id = w.warehouse_id;
    warehouse_name = w.warehouse_name;
    available = w.available;
    distance_km = haversine_distance_km (location w) destination;
  }

  -- `inventory.filter(…).map(…)`: the warehouses with stock, with their distances
  abbrev pub stocked : GeoPoint N → InventorySnapshot N → List (RankedWarehouse N)
  stocked destination [] = []
  stocked destination (w ∷ ws) =
      let rest = stocked destination ws in
      if f.lt (whole 0) w.available then rank destination w ∷ rest else rest

  -- Whether the comparator of the sort is positive: `left.distanceKm - right.distanceKm`, or, where
  -- that is zero or NaN, `compareIds`.
  unfoldable pub comes_after : RankedWarehouse N → RankedWarehouse N → Bool
  comes_after left right =
      let difference = f.sub left.distance_km right.distance_km in
      if f.lt (whole 0) difference
      then true
      else if f.lt difference (whole 0)
      then false
      else text_lt right.warehouse_id left.warehouse_id

  -- `Array.prototype.sort`: a stable sort by the comparator, here by insertion.
  unfoldable pub insert : RankedWarehouse N → List (RankedWarehouse N) → List (RankedWarehouse N)
  insert w [] = w ∷ []
  insert w (v ∷ vs) = let later = v ∷ insert w vs in if comes_after w v then later else w ∷ v ∷ vs

  unfoldable pub sort : List (RankedWarehouse N) → List (RankedWarehouse N)
  unfolding insert
  sort [] = []
  sort (w ∷ ws) = insert w (sort ws)

  -- The loop over the ranked warehouses, with the units that remain.
  unfoldable pub take_units : ℕ → List (RankedWarehouse N) → ShippingPlan N
  take_units remaining [] = []
  take_units remaining (w ∷ ws) =
      let units = min remaining (natural w.available) in
      let rest = allocation units w ∷ take_units (remaining - units) ws in
      if remaining == 0 then [] else rest

  -- `allocateNearestFirst`; `none` is `null`.
  unfoldable pub allocate_nearest_first :
      ⦃z : Zod N⦄ → ℕ → GeoPoint N → InventorySnapshot N → Result (Option (ShippingPlan N))
  allocate_nearest_first quantity destination inventory = do
    assert_valid_snapshot inventory
    ok (
        if ltb (total_available inventory) quantity
        then none
        else some (take_units quantity (sort (stocked destination inventory))))
