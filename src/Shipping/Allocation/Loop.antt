-- ===== src/Shipping/Allocation/Loop.antt =====
-- The allocation loop: what it takes from the ranked warehouses, in units and in cost.
pub mod Cost
pub mod Prefix
use scos.Prelude.{
  ℕ, zero, suc, ◌+◌, ◌-◌, ◌≤◌, ◌<◌, ◌≡◌, ◌≢◌, refl, List, [], ◌∷◌, min, arith, sum_by, All, ◌⊎◌,
  inl, inr, Bool-cases, ltb,
}
use scos.Js.{Floats, natural}
use scos.Shipping.Allocation.{
  RankedWarehouse, WarehouseAllocation, ShippingPlan, allocation, take_units,
}

module _ {N : Type 0} where
  abbrev pub quantity_of : WarehouseAllocation N → ℕ
  quantity_of a = a.quantity

module _ {N : Type 0} ⦃f : Floats N⦄ where
  abbrev pub ranked_units : RankedWarehouse N → ℕ
  ranked_units w = natural w.available

  -- The allocation takes units of that warehouse: at least one and no more than it has.
  pub record TakesFrom (a : WarehouseAllocation N) (w : RankedWarehouse N) : Type 0 where
    pub same_id : a.warehouse_id ≡ w.warehouse_id
    pub same_name : a.warehouse_name ≡ w.warehouse_name
    pub same_distance : a.distance_km ≡ w.distance_km
    pub positive : 1 ≤ a.quantity
    pub in_stock : a.quantity ≤ ranked_units w

  -- The plan takes from the first warehouses in their order, and empties each but the last.
  abbrev pub Follows : ShippingPlan N → List (RankedWarehouse N) → Type 0
  Follows [] ws = Unit
  Follows (a ∷ p) [] = ⊥
  Follows (a ∷ p) (w ∷ ws) =
      TakesFrom a w × ((p ≡ []) ⊎ (a.quantity ≡ ranked_units w)) × Follows p ws

  abbrev pub HasStock : RankedWarehouse N → Type 0
  HasStock w = 1 ≤ ranked_units w

  pub take_units-zero : (ws : List (RankedWarehouse N)) → take_units 0 ws ≡ []
  unfolding take_units
  take_units-zero [] = refl
  take_units-zero (w ∷ ws) = refl

  pub take_units-nil : (r : ℕ) → take_units {N = N} r [] ≡ []
  unfolding take_units
  take_units-nil r = refl

  -- The loop takes what is asked for, as far as the stock goes.
  pub sum_by-take_units :
      (r : ℕ) (ws : List (RankedWarehouse N))
      → sum_by quantity_of (take_units r ws) ≡ min r (sum_by ranked_units ws)
  unfolding take_units
  sum_by-take_units r [] = omega arith
  sum_by-take_units r (w ∷ ws) = ground (arith, sum_by-take_units (r - min r (ranked_units w)) ws)

  pub take_units-suc :
      (r : ℕ) (w : RankedWarehouse N) (ws : List (RankedWarehouse N))
      → let units = min (suc r) (ranked_units w) in
        take_units (suc r) (w ∷ ws) ≡ allocation units w ∷ take_units (suc r - units) ws
  unfolding take_units
  take_units-suc r w ws = ground arith

  -- What is left after a warehouse that was not emptied is nothing.
  last_or_emptied :
      (r : ℕ) (w : RankedWarehouse N) (ws : List (RankedWarehouse N))
      → let units = min r (ranked_units w) in
        (take_units (r - units) ws ≡ []) ⊎ (units ≡ ranked_units w)
  last_or_emptied r w ws = elim (Bool-cases (ltb r (ranked_units w))) [
    | inl short ↦
        let none_left : r - min r (ranked_units w) ≡ 0 = ground arith in
        inl (rw none_left (take_units-zero ws))
    | inr enough ↦ inr (ground arith)
  ]

  pub take_units-Follows :
      (r : ℕ) (ws : List (RankedWarehouse N)) → All HasStock ws → Follows (take_units r ws) ws
  take_units-Follows r [] h = rw (take_units-nil r) tt
  take_units-Follows zero (w ∷ ws) h = rw (take_units-zero (w ∷ ws)) tt
  take_units-Follows (suc r) (w ∷ ws) (p, h) =
      let units = min (suc r) (ranked_units w) in
      rw (take_units-suc r w ws) (
        record {
          same_id = refl;
          same_name = refl;
          same_distance = refl;
          positive = omega arith;
          in_stock = omega arith;
        },
        last_or_emptied (suc r) w ws,
        take_units-Follows (suc r - units) ws h,
      )
