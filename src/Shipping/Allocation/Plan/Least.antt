-- ===== src/Shipping/Allocation/Plan/Least.antt =====
-- The cost of nearest-first plans, for a price that depends on the distance.
use scos.Prelude.{
  ℕ, ◌≤◌, ◌≡◌, sym, ◌∙◌, true, false, List, [], ◌∷◌, some, arith, All, All-zip, Ordered,
}
use scos.Js.{Floats, IsIeee}
use scos.Zod.{Zod, IsZod}
use scos.Shared.Errors.{ok}
use scos.Shared.Schemas.{GeoPoint, geo_point_valid}
use scos.Shipping.Allocation.{
  InventorySnapshot, RankedWarehouse, ShippingPlan, snapshot_valid, stocked, sort, take_units,
  allocate_nearest_first,
}
use scos.Shipping.Allocation.Loop.Cost.{plan_cost, choice_cost, Choice, IsRising, plan_cost_least}
use scos.Shipping.Allocation.Ranking.{IsFinite, not_nearer}
use scos.Shipping.Allocation.Ranking.Sorted.{NotAfter}
use scos.Shipping.Allocation.Plan.{finite, in_order, allocate_nearest_first_lem}

module _ {N : Type 0} ⦃f : Floats N⦄ ⦃z : Zod N⦄ (ieee : IsIeee N) (schemas : IsZod N)
    (cost : N → ℕ)
    (dearer : (x y : N)
      → f.is_finite x ≡ true
      → f.is_finite y ≡ true
      → f.lt y x ≡ false
      → cost x ≤ cost y) where
  rising :
      (ws : List (RankedWarehouse N))
      → All (IsFinite ieee) ws
      → Ordered NotAfter ws
      → IsRising cost ws
  rising [] fs o = tt
  rising (w ∷ ws) (fw, fs) (below, o) = (
    All-zip (λ v fv n. dearer _ _ fw fv (not_nearer ieee w v fw fv n)) ws fs below,
    rising ws fs o,
  )

  -- The plan for a valid snapshot and destination costs no more than any other choice of the same
  -- units from the warehouses with stock, for every price per unit that does not fall with the
  -- distance.
  pub allocate_nearest_first-least :
      (destination : GeoPoint N) (inventory : InventorySnapshot N)
      → snapshot_valid inventory ≡ true
      → geo_point_valid destination ≡ true
      → (q : ℕ) (p : ShippingPlan N) → allocate_nearest_first q destination inventory ≡ ok (some p)
      → (units : List ℕ) → Choice cost q (sort (stocked destination inventory)) units
      → plan_cost cost p ≤ choice_cost cost (sort (stocked destination inventory)) units
  allocate_nearest_first-least destination inventory valid on_earth q p h units choice =
      let ws = sort (stocked destination inventory) in
      let result =
        sym (allocate_nearest_first_lem ieee schemas q destination inventory valid) ∙ h in
      let same : take_units q ws ≡ p = ground arith in
      rw (← same) (
        plan_cost_least cost q ws units
          (rising ws (finite ieee schemas destination inventory valid on_earth)
            (in_order ieee schemas destination inventory valid on_earth))
          choice)
