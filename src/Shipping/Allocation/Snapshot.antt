-- ===== src/Shipping/Allocation/Snapshot.antt =====
-- What a valid snapshot is, and what it makes of the warehouses that are ranked.
use scos.Prelude.{
  ℕ, ◌+◌, ◌≤◌, ◌≡◌, ◌≢◌, refl, sym, ◌∙◌, ap, true, false, some, List, [], ◌∷◌, map, arith, Text,
  text_eq_refl, length, inl, inr, Bool-cases, false≢true, zero, suc, sum_by, all, All, Ordered,
  &&-eq-true,
}
use scos.Js.{Floats, IsIeee, number, text, whole, natural_of_count}
use scos.Zod.{Zod, IsZod, is_empty}
use scos.Shared.Schemas.{GeoPoint}
use scos.Shared.Schemas.Laws.{IsOnEarth, coordinate_within}
use scos.Shipping.Distance.Bounds.{haversine_distance_km-IsLength}
use scos.Shipping.Allocation.{
  WarehouseStock, InventorySnapshot, RankedWarehouse, contains, unique_ids, stock_issues,
  snapshot_valid, name_schema, available_schema, stock_units, location, rank, stocked,
}
use scos.Shipping.Allocation.Loop.{HasStock, ranked_units}
use scos.Shipping.Allocation.Ranking.{IsFinite}

module _ {N : Type 0} where
  abbrev pub DistinctStock : WarehouseStock N → WarehouseStock N → Type 0
  DistinctStock v w = v.warehouse_id ≢ w.warehouse_id

contains_self : (id : Text) (seen : List Text) → contains id (id ∷ seen) ≡ true
contains_self id seen = rw (text_eq_refl id)

contains_later :
    (id s : Text) (seen : List Text) → contains id seen ≡ true → contains id (s ∷ seen) ≡ true
contains_later id s seen h = ground arith

module _ {N : Type 0} ⦃f : Floats N⦄ where
  unseen :
      (id : Text) (seen : List Text) (ws : InventorySnapshot N)
      → contains id seen ≡ true
      → unique_ids seen ws ≡ true
      → All (λ w. id ≢ w.warehouse_id) ws
  unseen id seen [] c h = tt
  unseen id seen (w ∷ ws) c h =
      let checks : (contains w.warehouse_id seen ≡ false)
          × (unique_ids (w.warehouse_id ∷ seen) ws ≡ true) =
        ground arith in
      (
        (λ same. false≢true (sym checks.0 ∙ sym (ap (λ t. contains t seen) same) ∙ c)),
        unseen id (w.warehouse_id ∷ seen) ws (contains_later id w.warehouse_id seen c) checks.1,
      )

  pub unique_ids-Ordered :
      (seen : List Text) (ws : InventorySnapshot N)
      → unique_ids seen ws ≡ true
      → Ordered DistinctStock ws
  unique_ids-Ordered seen [] h = tt
  unique_ids-Ordered seen (w ∷ ws) h =
      let rest : unique_ids (w.warehouse_id ∷ seen) ws ≡ true = ground arith in
      (
        unseen w.warehouse_id (w.warehouse_id ∷ seen) ws (contains_self w.warehouse_id seen) rest,
        unique_ids-Ordered (w.warehouse_id ∷ seen) ws rest,
      )

  module _ ⦃z : Zod N⦄ (ieee : IsIeee N) (schemas : IsZod N) where
    open ieee use {is_within}

    -- A warehouse on Earth, with a whole number of units.
    abbrev pub IsStock : WarehouseStock N → Type 0
    IsStock w =
        (is_within 90 w.latitude ≡ true)
        × (is_within 180 w.longitude ≡ true)
        × (1 ≤ length w.warehouse_id)
        × (1 ≤ length w.warehouse_name)
        × ((n : ℕ) × (f.count w.available ≡ some n))

    name_length : (t : Text) → is_empty (z.string_issues name_schema (text t)) ≡ true → 1 ≤ length t
    name_length t h = let passed = sym (schemas.string_lem name_schema (text t)) ∙ h in ground arith

    available_count :
        (x : N)
        → is_empty (z.number_issues available_schema (number x)) ≡ true
        → (n : ℕ) × (f.count x ≡ some n)
    available_count x h =
        let passed = sym (schemas.number_lem available_schema (number x)) ∙ h in
        let checks : (f.is_safe_integer x ≡ true) × (f.le (whole 0) x ≡ true) = ground arith in
        ieee.count_of_safe x checks.0 checks.1

    IsStock-of_issues : (w : WarehouseStock N) → is_empty (stock_issues w) ≡ true → IsStock w
    IsStock-of_issues w h =
        let fields = sym (schemas.object_lem _) ∙ h in
        let (id, r1) = &&-eq-true _ _ fields in
        let (name, r2) = &&-eq-true _ _ r1 in
        let (latitude, r3) = &&-eq-true _ _ r2 in
        let (longitude, r4) = &&-eq-true _ _ r3 in
        let (available, _) = &&-eq-true _ _ r4 in
        (
          coordinate_within ieee schemas 90 w.latitude (sym (schemas.number_lem _ _) ∙ latitude)
              (omega arith),
          coordinate_within ieee schemas 180 w.longitude (sym (schemas.number_lem _ _) ∙ longitude)
              (omega arith),
          name_length w.warehouse_id id,
          name_length w.warehouse_name name,
          available_count w.available available,
        )

    All-IsStock :
        (ws : InventorySnapshot N) → all is_empty (map stock_issues ws) ≡ true → All IsStock ws
    All-IsStock [] h = tt
    All-IsStock (w ∷ ws) h =
        let (first, rest) = (&&-eq-true _ _ h) in (IsStock-of_issues w first, All-IsStock ws rest)

    -- A snapshot that passes the check has valid warehouses with distinct IDs.
    pub snapshot_valid-IsStock :
        (ws : InventorySnapshot N)
        → snapshot_valid ws ≡ true
        → All IsStock ws × Ordered DistinctStock ws
    unfolding snapshot_valid
    snapshot_valid-IsStock ws h =
        let (issues, unique) = (&&-eq-true _ _ h) in
        (All-IsStock ws (sym (schemas.array_lem _) ∙ issues), unique_ids-Ordered [] ws unique)

    module _ (destination : GeoPoint N) (on_earth : IsOnEarth ieee schemas destination) where
      stocked-cases :
          (P : List (RankedWarehouse N) → Type 0) (w : WarehouseStock N) (ws : InventorySnapshot N)
          → (f.lt (whole 0) w.available ≡ true → P (rank destination w ∷ stocked destination ws))
          → (f.lt (whole 0) w.available ≡ false → P (stocked destination ws))
          → P (stocked destination (w ∷ ws))
      stocked-cases P w ws y n = elim (Bool-cases (f.lt (whole 0) w.available)) [
        | inl t ↦ rw t (y t)
        | inr e ↦ rw e (n e)
      ]

      pub stocked-IsFinite :
          (ws : InventorySnapshot N) → All IsStock ws → All (IsFinite ieee) (stocked destination ws)
      stocked-IsFinite [] h = tt
      stocked-IsFinite (w ∷ ws) ((lat, lon, _, _, _), h) =
          let length_km =
            haversine_distance_km-IsLength ieee (location w) destination lat lon on_earth.0
              on_earth.1 in
          stocked-cases (All (IsFinite ieee)) w ws
            (λ _. (ieee.is_finite_of_within 25_488 _ length_km.0, stocked-IsFinite ws h))
            (λ _. stocked-IsFinite ws h)

      pub stocked-HasStock :
          (ws : InventorySnapshot N) → All IsStock ws → All HasStock (stocked destination ws)
      stocked-HasStock [] h = tt
      stocked-HasStock (w ∷ ws) ((_, _, _, _, (n, c)), h) =
          stocked-cases (All HasStock) w ws
            (λ t. (
              omega (arith, natural_of_count w.available n c, ieee.count_pos w.available n c t),
              stocked-HasStock ws h,
            ))
            (λ _. stocked-HasStock ws h)

      no_units :
          (w : WarehouseStock N) (n : ℕ)
          → f.count w.available ≡ some n
          → f.lt (whole 0) w.available ≡ false
          → stock_units w ≡ 0
      no_units w zero c e = natural_of_count w.available 0 c
      no_units w (suc n) c e =
          absurd (false≢true (sym e ∙ ieee.lt_of_count_pos w.available (suc n) c (omega arith)))

      -- The ranked warehouses have all of the stock.
      pub sum_by-stocked :
          (ws : InventorySnapshot N)
          → All IsStock ws
          → sum_by ranked_units (stocked destination ws) ≡ sum_by stock_units ws
      sum_by-stocked [] h = refl
      sum_by-stocked (w ∷ ws) ((_, _, _, _, (n, c)), h) =
          let rest = sum_by-stocked ws h in
          stocked-cases (λ rs. sum_by ranked_units rs ≡ stock_units w + sum_by stock_units ws) w ws
            (λ t. omega (arith, rest)) (λ e. omega (arith, rest, no_units w n c e))
