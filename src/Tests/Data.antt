-- ===== src/Tests/Data.antt =====
-- Two warehouses, a destination and a request, in fixed-point numbers and exact decimals.
use scos.Prelude.{ℕ, ◌*◌, ◌≡◌, refl, true, [], ◌∷◌, codes}
use scos.Js.Fixed.{Fixed, pos, fixed_floats}
use scos.Zod.Plain.{plain_zod}
use scos.Shared.Schemas.{GeoPoint, quantity_valid, geo_point_valid}
use scos.Shipping.Allocation.{WarehouseStock, InventorySnapshot, snapshot_valid}
use scos.Ordering.Request.{OrderRequest}

abbrev pub degrees : ℕ → Fixed
degrees n = pos (n * 1_000_000)

abbrev pub units : ℕ → Fixed
units n = pos (n * 1_000_000)

abbrev pub near_warehouse : WarehouseStock Fixed
near_warehouse = record {
  warehouse_id = codes "a1";
  warehouse_name = codes "Hong Kong";
  latitude = degrees 1;
  longitude = degrees 1;
  available = units 5;
}

abbrev pub far_warehouse : WarehouseStock Fixed
far_warehouse = record {
  warehouse_id = codes "b2";
  warehouse_name = codes "Warsaw";
  latitude = degrees 40;
  longitude = degrees 20;
  available = units 10;
}

abbrev pub two_warehouses : InventorySnapshot Fixed
two_warehouses = far_warehouse ∷ near_warehouse ∷ []

abbrev pub near_first : InventorySnapshot Fixed
near_first = near_warehouse ∷ far_warehouse ∷ []

abbrev pub destination : GeoPoint Fixed
destination = record { latitude = degrees 1; longitude = degrees 2 }

abbrev pub seven_units : OrderRequest Fixed
seven_units = record { quantity = units 7; destination = destination }

pub two_warehouses-valid : snapshot_valid two_warehouses ≡ true
unfolding snapshot_valid
two_warehouses-valid = refl

pub near_first-valid : snapshot_valid near_first ≡ true
unfolding snapshot_valid
near_first-valid = refl

pub destination-valid : geo_point_valid destination ≡ true
unfolding geo_point_valid
destination-valid = refl

pub seven_units-valid : quantity_valid (units 7) ≡ true
unfolding quantity_valid
seven_units-valid = refl
