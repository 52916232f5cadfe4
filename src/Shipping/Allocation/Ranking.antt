-- ===== src/Shipping/Allocation/Ranking.antt =====
-- The comparator is a strict total order on warehouses with finite distances and distinct IDs, and
-- the sort puts the ranked warehouses into that order.
pub mod Sorted
pub mod Permutation
use scos.Prelude.{
  ℕ, ◌≡◌, refl, Bool, true, false, List, [], ◌∷◌, arith, Text, text_lt, text_lt_irrefl,
  text_lt_trans, text_lt_total, text_not_lt_trans, ◌≢◌, if◌then◌else◌, ◌⊎◌, inl, inr,
}
use scos.Js.{Floats, IsIeee, whole}
use scos.Shipping.Allocation.{RankedWarehouse, comes_after}

module _ {N : Type 0} ⦃f : Floats N⦄ (ieee : IsIeee N) where
  abbrev pub IsFinite : RankedWarehouse N → Type 0
  IsFinite w = f.is_finite w.distance_km ≡ true

  -- Distance first, then the ID by code units.
  pub comes_after_lem :
      (v w : RankedWarehouse N)
      → IsFinite v
      → IsFinite w
      → comes_after v w ≡ (
          if f.lt w.distance_km v.distance_km
          then true
          else if f.lt v.distance_km w.distance_km
          then false
          else text_lt w.warehouse_id v.warehouse_id)
  unfolding comes_after
  comes_after_lem v w fv fw =
      rw (
        ieee.sub_gt v.distance_km w.distance_km fv fw,
        ieee.sub_lt v.distance_km w.distance_km fv fw,
      )

  -- A warehouse that comes after another one is not nearer.
  pub not_nearer :
      (v w : RankedWarehouse N)
      → IsFinite v
      → IsFinite w
      → comes_after v w ≡ false
      → f.lt w.distance_km v.distance_km ≡ false
  not_nearer v w fv fw h = ground (arith, comes_after_lem v w fv fw)

  pub comes_after_asymm :
      (v w : RankedWarehouse N)
      → IsFinite v
      → IsFinite w
      → comes_after v w ≡ true
      → comes_after w v ≡ false
  comes_after_asymm v w fv fw h =
      let a = v.distance_km in
      let b = w.distance_km in
      ground (
        arith,
        comes_after_lem v w fv fw,
        comes_after_lem w v fw fv,
        ieee.lt_trans a b a,
        ieee.lt_irrefl a,
        text_lt_trans v.warehouse_id w.warehouse_id v.warehouse_id,
        text_lt_irrefl v.warehouse_id,
      )

  pub comes_after_total :
      (v w : RankedWarehouse N)
      → IsFinite v
      → IsFinite w
      → v.warehouse_id ≢ w.warehouse_id
      → comes_after v w ≡ false
      → comes_after w v ≡ true
  comes_after_total v w fv fw distinct h = ground (
    arith,
    comes_after_lem v w fv fw,
    comes_after_lem w v fw fv,
    text_lt_total v.warehouse_id w.warehouse_id,
  )

  pub before_trans :
      (u v w : RankedWarehouse N)
      → IsFinite u
      → IsFinite v
      → IsFinite w
      → comes_after u v ≡ false
      → comes_after v w ≡ false
      → comes_after u w ≡ false
  before_trans u v w fu fv fw h k =
      let a = u.distance_km in
      let b = v.distance_km in
      let c = w.distance_km in
      ground (
        arith,
        comes_after_lem u v fu fv,
        comes_after_lem v w fv fw,
        comes_after_lem u w fu fw,
        ieee.lt_weak c b a fw fv fu,
        ieee.lt_weak a c b fu fw fv,
        ieee.lt_weak b a c fv fu fw,
        text_not_lt_trans u.warehouse_id v.warehouse_id w.warehouse_id,
      )
