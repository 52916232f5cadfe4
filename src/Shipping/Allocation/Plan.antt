-- ===== src/Shipping/Allocation/Plan.antt =====
-- What `allocateNearestFirst` promises of the plan that it returns.
pub mod Order
pub mod Least
use mathlib.Core.Path.{subst}
use scos.Prelude.{
  ℕ, ◌+◌, ◌≤◌, ◌<◌, ◌≡◌, ◌≢◌, refl, sym, ◌∙◌, ap, Bool, true, false, some, none, List, [], ◌∷◌,
  arith, min, ltb, if◌then◌else◌, ◌⊎◌, inl, inr, Bool-cases, sum_by, All, All-map, All-zip,
  false≢true, ltb→lt, Any, Ordered,
}
use scos.Js.{Floats, IsIeee, whole}
use scos.Zod.{Zod, IsZod}
use scos.Shared.Errors.{ok, throws, invalid_inventory, require}
use scos.Shared.Schemas.{GeoPoint, geo_point_valid}
use scos.Shared.Schemas.Laws.{IsOnEarth-of_valid}
use scos.Shipping.Allocation.{
  WarehouseStock, InventorySnapshot, RankedWarehouse, WarehouseAllocation, ShippingPlan,
  snapshot_valid, assert_valid_snapshot, stock_units, total_available, location, rank, stocked,
  sort, take_units, allocate_nearest_first,
}
use scos.Shipping.Distance.{haversine_distance_km}
use scos.Shipping.Allocation.Loop.{
  quantity_of, ranked_units, TakesFrom, Follows, HasStock, sum_by-take_units, take_units-Follows,
}
use scos.Shipping.Allocation.Loop.Prefix.{
  Follows-All, Follows-Ordered, Empties, EmptiedIfNearer, Follows-EmptiedIfNearer,
}
use scos.Shipping.Allocation.Ranking.{IsFinite, not_nearer}
use scos.Shipping.Allocation.Ranking.Sorted.{
  sum_by-sort, All-sort, All-of-sort, NotAfter, sort-Ordered, sort-Ordered_symm,
}
use scos.Shipping.Allocation.Ranking.Permutation.{DistinctRanked}
use scos.Shipping.Allocation.Snapshot.{
  DistinctStock, IsStock, snapshot_valid-IsStock, stocked-IsFinite, stocked-HasStock,
  sum_by-stocked,
}

module _ {N : Type 0} ⦃f : Floats N⦄ where
  -- The allocation takes units that a warehouse of the snapshot has, at its distance.
  abbrev pub SuppliedBy : GeoPoint N → InventorySnapshot N → WarehouseAllocation N → Type 0
  SuppliedBy destination inventory a = Any (λ w. TakesFrom a (rank destination w)) inventory

  abbrev pub NotFartherThan : WarehouseAllocation N → WarehouseAllocation N → Type 0
  NotFartherThan a b = f.lt b.distance_km a.distance_km ≡ false

  abbrev pub OtherWarehouse : WarehouseAllocation N → WarehouseAllocation N → Type 0
  OtherWarehouse a b = a.warehouse_id ≢ b.warehouse_id

  -- If an allocation comes from farther away than a warehouse with stock, that warehouse is emptied.
  abbrev pub UsedFirst : GeoPoint N → ShippingPlan N → WarehouseStock N → Type 0
  UsedFirst destination p w =
      (f.lt (whole 0) w.available ≡ false)
      ⊎ All
          (λ b.
            (f.lt (haversine_distance_km (location w) destination) b.distance_km ≡ false)
            ⊎ Any (Empties (rank destination w)) p)
          p

  UsedFirst-of :
      (destination : GeoPoint N) (p : ShippingPlan N) (w : WarehouseStock N)
      → (f.lt (whole 0) w.available ≡ true → EmptiedIfNearer p (rank destination w))
      → UsedFirst destination p w
  UsedFirst-of destination p w h = elim (Bool-cases (f.lt (whole 0) w.available)) [
    | inl stock ↦ inr (All-map (λ b. either b) p (h stock))
    | inr none_left ↦ inl none_left
  ]
    where
      either :
          (b : WarehouseAllocation N)
          → (f.lt (haversine_distance_km (location w) destination) b.distance_km ≡ true
              → Any (Empties (rank destination w)) p)
          → (f.lt (haversine_distance_km (location w) destination) b.distance_km ≡ false)
            ⊎ Any (Empties (rank destination w)) p
      either b g =
          elim (Bool-cases (f.lt (haversine_distance_km (location w) destination) b.distance_km)) [
            | inl nearer ↦ inr (g nearer)
            | inr farther ↦ inl farther
          ]

  -- A plan for `q` units: exactly as many, from distinct warehouses that have them, nearest first,
  -- and none from a warehouse while a nearer one has stock left.
  pub record IsNearestPlan (q : ℕ) (destination : GeoPoint N) (inventory : InventorySnapshot N)
      (p : ShippingPlan N) : Type 0 where
    pub fulfils : sum_by quantity_of p ≡ q
    pub supplied : All (SuppliedBy destination inventory) p
    pub distinct : Ordered OtherWarehouse p
    pub nearest_first : Ordered NotFartherThan p
    pub used_first : All (UsedFirst destination p) inventory

  stocked-from :
      (destination : GeoPoint N) (P : RankedWarehouse N → Type 0) (ws : InventorySnapshot N)
      → All (λ w. P (rank destination w)) ws
      → All P (stocked destination ws)
  stocked-from destination P [] h = tt
  stocked-from destination P (w ∷ ws) (p, h) = elim (Bool-cases (f.lt (whole 0) w.available)) [
    | inl t ↦ rw t (p, stocked-from destination P ws h)
    | inr e ↦ rw e (stocked-from destination P ws h)
  ]

  of_stocked :
      (destination : GeoPoint N) (P : RankedWarehouse N → Type 0) (ws : InventorySnapshot N)
      → All P (stocked destination ws)
      → All (λ w. f.lt (whole 0) w.available ≡ true → P (rank destination w)) ws
  of_stocked destination P [] h = tt
  of_stocked destination P (w ∷ ws) h = elim (Bool-cases (f.lt (whole 0) w.available)) [
    | inl t ↦
        let k : All P (rank destination w ∷ stocked destination ws) =
          subst
            (λ b.
              All P
                (if b then rank destination w ∷ stocked destination ws else stocked destination ws))
            t h in
        (λ _. k.0, of_stocked destination P ws k.1)
    | inr e ↦
        let k : All P (stocked destination ws) =
          subst
            (λ b.
              All P
                (if b then rank destination w ∷ stocked destination ws else stocked destination ws))
            e h in
        (λ t. absurd (false≢true (sym e ∙ t)), of_stocked destination P ws k)
  ]

  pub stocked-Ordered :
      (destination : GeoPoint N) (ws : InventorySnapshot N)
      → Ordered DistinctStock ws
      → Ordered DistinctRanked (stocked destination ws)
  stocked-Ordered destination [] o = tt
  stocked-Ordered destination (w ∷ ws) (d, o) =
      let rest = stocked-Ordered destination ws o in
      elim (Bool-cases (f.lt (whole 0) w.available)) [
        | inl t ↦ rw t (stocked-from destination (DistinctRanked (rank destination w)) ws d, rest)
        | inr e ↦ rw e rest
      ]

  self_ranked :
      (destination : GeoPoint N) (ws : InventorySnapshot N)
      → All (λ r. Any (λ w. r ≡ rank destination w) ws) (stocked destination ws)
  self_ranked destination ws =
      stocked-from destination (λ r. Any (λ w. r ≡ rank destination w) ws) ws (itself ws)
    where
      later :
          (v : WarehouseStock N) (us vs : InventorySnapshot N)
          → All (λ u. Any (λ w. rank destination u ≡ rank destination w) us) vs
          → All (λ u. Any (λ w. rank destination u ≡ rank destination w) (v ∷ us)) vs
      later v us vs = All-map (λ u m. inr m) vs

      itself :
          (us : InventorySnapshot N)
          → All (λ u. Any (λ w. rank destination u ≡ rank destination w) us) us
      itself [] = tt
      itself (u ∷ us) = (inl refl, later u us us (itself us))

  taken-Any :
      (destination : GeoPoint N) (a : WarehouseAllocation N) (r : RankedWarehouse N)
      → TakesFrom a r
      → (ws : InventorySnapshot N) → Any (λ w. r ≡ rank destination w) ws
      → SuppliedBy destination ws a
  taken-Any destination a r t [] m = absurd m
  taken-Any destination a r t (w ∷ ws) (inl e) = inl (subst (TakesFrom a) e t)
  taken-Any destination a r t (w ∷ ws) (inr m) = inr (taken-Any destination a r t ws m)

  module _ ⦃z : Zod N⦄ (ieee : IsIeee N) (schemas : IsZod N) where
    pub assert_valid_snapshot-invalid :
        (q : ℕ) (destination : GeoPoint N) (inventory : InventorySnapshot N)
        → snapshot_valid inventory ≡ false
        → allocate_nearest_first q destination inventory ≡ throws invalid_inventory
    unfolding allocate_nearest_first assert_valid_snapshot
    assert_valid_snapshot-invalid q destination inventory h = rw h refl

    pub allocate_nearest_first_lem :
        (q : ℕ) (destination : GeoPoint N) (inventory : InventorySnapshot N)
        → snapshot_valid inventory ≡ true
        → allocate_nearest_first q destination inventory
          ≡ ok (
              if ltb (total_available inventory) q
              then none
              else some (take_units q (sort (stocked destination inventory))))
    unfolding allocate_nearest_first assert_valid_snapshot
    allocate_nearest_first_lem q destination inventory h = rw h refl

    module _ (destination : GeoPoint N) (inventory : InventorySnapshot N)
        (valid : snapshot_valid inventory ≡ true)
        (point_valid : geo_point_valid destination ≡ true) where
      abbrev pub ranked : List (RankedWarehouse N)
      ranked = sort (stocked destination inventory)

      pub finite : All (IsFinite ieee) ranked
      finite = All-sort (IsFinite ieee) _ (
          stocked-IsFinite ieee schemas destination
            (IsOnEarth-of_valid ieee schemas destination point_valid) inventory
            (snapshot_valid-IsStock ieee schemas inventory valid).0)

      pub in_order : Ordered NotAfter ranked
      in_order = sort-Ordered ieee _ (
          stocked-IsFinite ieee schemas destination
            (IsOnEarth-of_valid ieee schemas destination point_valid) inventory
            (snapshot_valid-IsStock ieee schemas inventory valid).0)

      with_stock : All HasStock ranked
      with_stock = All-sort HasStock _ (
          stocked-HasStock ieee schemas destination
            (IsOnEarth-of_valid ieee schemas destination point_valid) inventory
            (snapshot_valid-IsStock ieee schemas inventory valid).0)

      all_stock : sum_by ranked_units ranked ≡ total_available inventory
      unfolding total_available
      all_stock =
          sum_by-sort ranked_units _
          ∙ sum_by-stocked ieee schemas destination
              (IsOnEarth-of_valid ieee schemas destination point_valid) inventory
              (snapshot_valid-IsStock ieee schemas inventory valid).0

      distinct_ids : Ordered DistinctRanked ranked
      distinct_ids =
          sort-Ordered_symm DistinctRanked (λ v w n e. n (sym e)) _
            (stocked-Ordered destination inventory
              (snapshot_valid-IsStock ieee schemas inventory valid).1)

      nearer_first :
          (us : List (RankedWarehouse N))
          → All (IsFinite ieee) us
          → Ordered NotAfter us
          → Ordered (λ v w. f.lt w.distance_km v.distance_km ≡ false) us
      nearer_first [] fs o = tt
      nearer_first (u ∷ us) (fu, fs) (below, o) =
          (All-zip (λ w fw n. not_nearer ieee u w fu fw n) us fs below, nearer_first us fs o)

      plan-IsNearestPlan :
          (q : ℕ)
          → q ≤ total_available inventory
          → IsNearestPlan q destination inventory (take_units q ranked)
      plan-IsNearestPlan q enough =
          let follows = take_units-Follows q ranked with_stock in
          record {
            fulfils = sum_by-take_units q ranked ∙ omega (arith, all_stock);
            supplied =
                Follows-All (λ r. Any (λ w. r ≡ rank destination w) inventory)
                  (SuppliedBy destination inventory)
                  (λ a r t m. taken-Any destination a r t inventory m) _ ranked follows
                  (All-sort _ _ (self_ranked destination inventory));
            distinct =
                Follows-Ordered DistinctRanked OtherWarehouse
                  (λ a b v w t u n e. n (sym t.same_id ∙ e ∙ u.same_id)) _ ranked follows
                  distinct_ids;
            nearest_first =
                Follows-Ordered (λ v w. f.lt w.distance_km v.distance_km ≡ false) NotFartherThan
                  (λ a b v w t u n. rw (t.same_distance, u.same_distance) n) _ ranked follows
                  (nearer_first ranked finite in_order);
            used_first = All-map (UsedFirst-of destination _) inventory (
                of_stocked destination _ inventory (
                  All-of-sort _ _ (Follows-EmptiedIfNearer ieee _ ranked follows finite in_order)));
          }

      -- On a valid snapshot and destination the allocation is null exactly if the stock is below
      -- the quantity; otherwise it is a plan for exactly that quantity, from distinct warehouses of
      -- the snapshot within their stock, nearest first, and nothing comes from a warehouse while a
      -- nearer one has stock left.
      pub allocate_nearest_first-IsNearestPlan :
          (q : ℕ)
          → ((total_available inventory < q)
              × (allocate_nearest_first q destination inventory ≡ ok none))
            ⊎ ((p : ShippingPlan N) × (allocate_nearest_first q destination inventory ≡ ok (some p))
                × IsNearestPlan q destination inventory p)
      allocate_nearest_first-IsNearestPlan q =
          let result = allocate_nearest_first_lem q destination inventory valid in
          elim (Bool-cases (ltb (total_available inventory) q)) [
            | inl short ↦ inl (omega (arith, ltb→lt _ _ short), result ∙ rw short refl)
            | inr enough ↦
                inr (
                  take_units q ranked,
                  result ∙ rw enough refl,
                  plan-IsNearestPlan q (ground arith),
                )
          ]
