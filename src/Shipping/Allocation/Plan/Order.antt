-- ===== src/Shipping/Allocation/Plan/Order.antt =====
-- Snapshots that list the warehouses in different orders.
use mathlib.Core.List.{Permᴰ}
use mathlib.Core.List.Permᴰ
use mathlib.Core.Path.{subst}
use scos.Prelude.{Bool, refl, ◌≡◌, sym, ◌∙◌, true, false, List, ◌∷◌, ℕ, if◌then◌else◌}
use scos.Js.{Floats, IsIeee, whole}
use scos.Zod.{Zod, IsZod}
use scos.Shared.Schemas.{GeoPoint, geo_point_valid}
use scos.Shared.Schemas.Laws.{IsOnEarth-of_valid}
use scos.Shipping.Allocation.{
  InventorySnapshot, RankedWarehouse, snapshot_valid, stock_units, total_available, rank, stocked,
  allocate_nearest_first,
}
use scos.Shipping.Allocation.Ranking.Permutation.{sum_by-perm, sort-perm}
use scos.Shipping.Allocation.Snapshot.{snapshot_valid-IsStock, stocked-IsFinite}
use scos.Shipping.Allocation.Plan.{allocate_nearest_first_lem, stocked-Ordered}

module _ {N : Type 0} ⦃f : Floats N⦄ where
  abbrev kept : Bool → RankedWarehouse N → List (RankedWarehouse N) → List (RankedWarehouse N)
  kept b r rs = if b then r ∷ rs else rs

  kept-perm :
      (b : Bool) (r : RankedWarehouse N) {rs ss : List (RankedWarehouse N)}
      → Permᴰ rs ss
      → Permᴰ (kept b r rs) (kept b r ss)
  kept-perm true r p = Permᴰ.cons refl p
  kept-perm false r p = p

  kept-swap :
      (b c : Bool) (r s : RankedWarehouse N) (rs : List (RankedWarehouse N))
      → Permᴰ (kept b r (kept c s rs)) (kept c s (kept b r rs))
  kept-swap true true r s rs = Permᴰ.swap refl refl
  kept-swap true false r s rs = Permᴰ.refl _
  kept-swap false c r s rs = Permᴰ.refl _

  stocked-perm :
      (destination : GeoPoint N) {ws vs : InventorySnapshot N}
      → Permᴰ ws vs
      → Permᴰ (stocked destination ws) (stocked destination vs)
  stocked-perm destination Permᴰ.nil = Permᴰ.nil
  stocked-perm destination (Permᴰ.cons {a = a} {l₁ = l₁} {l₂ = l₂} e p) =
      subst (λ w. Permᴰ (stocked destination (a ∷ l₁)) (stocked destination (w ∷ l₂))) e
        (kept-perm (f.lt (whole 0) a.available) (rank destination a) (stocked-perm destination p))
  stocked-perm destination (Permᴰ.swap {a = a} {b = b} {b' = b'} {l = l} e e') =
      subst (λ w. Permᴰ (stocked destination (a ∷ b ∷ l)) (stocked destination (w ∷ b' ∷ l))) e'
        (subst (λ w. Permᴰ (stocked destination (a ∷ b ∷ l)) (stocked destination (b ∷ w ∷ l))) e
          (kept-swap (f.lt (whole 0) a.available) (f.lt (whole 0) b.available) (rank destination a)
            (rank destination b) (stocked destination l)))
  stocked-perm destination (Permᴰ.trans p q) =
      Permᴰ.trans (stocked-perm destination p) (stocked-perm destination q)

  total_available-perm :
      {ws vs : InventorySnapshot N} → Permᴰ ws vs → total_available ws ≡ total_available vs
  unfolding total_available
  total_available-perm = sum_by-perm stock_units

  module _ ⦃z : Zod N⦄ (ieee : IsIeee N) (schemas : IsZod N) where
    -- Two valid snapshots that list the same warehouses in different orders have the same
    -- allocation, for every quantity and valid destination.
    pub allocate_nearest_first-perm :
        (q : ℕ) (destination : GeoPoint N) {inventory other : InventorySnapshot N}
        → Permᴰ inventory other
        → geo_point_valid destination ≡ true
        → snapshot_valid inventory ≡ true
        → snapshot_valid other ≡ true
        → allocate_nearest_first q destination inventory
          ≡ allocate_nearest_first q destination other
    allocate_nearest_first-perm q destination {inventory} {other} p on_earth valid valid' =
        let (stock, distinct) = snapshot_valid-IsStock ieee schemas inventory valid in
        let fs =
          stocked-IsFinite ieee schemas destination
            (IsOnEarth-of_valid ieee schemas destination on_earth) inventory stock in
        let same =
          sort-perm ieee (stocked-perm destination p) fs
            (stocked-Ordered destination inventory distinct) in
        allocate_nearest_first_lem ieee schemas q destination inventory valid
        ∙ rw (total_available-perm p, same) refl
        ∙ sym (allocate_nearest_first_lem ieee schemas q destination other valid')
