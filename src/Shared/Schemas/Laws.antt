-- ===== src/Shared/Schemas/Laws.antt =====
-- What a validated quantity and a validated point are.
use scos.Prelude.{ℕ, ◌^◌, ◌≤◌, ◌≡◌, true, some, [], ◌∷◌, arith, ◌∙◌, sym}
use scos.Js.{Floats, IsIeee, number, whole}
use scos.Zod.{Zod, IsZod, NumberCheck, is_empty, conforms_number}
use scos.Shared.Money.{max_quantity}
use scos.Shared.Schemas.{
  GeoPoint, latitude_schema, longitude_schema, quantity_schema, quantity_valid, geo_point_valid,
}

module _ {N : Type 0} ⦃f : Floats N⦄ ⦃z : Zod N⦄ (ieee : IsIeee N) (schemas : IsZod N) where
  open ieee use {is_within}

  -- A quantity as a natural number in the supported range.
  abbrev pub Quantity : N → ℕ → Type 0
  Quantity q n = (f.count q ≡ some n) × (1 ≤ n) × (n ≤ max_quantity)

  -- A number that passes the quantity schema is a natural number from 1 to the largest supported
  -- quantity.
  pub Quantity-of_valid : (q : N) → quantity_valid q ≡ true → (n : ℕ) × Quantity q n
  unfolding quantity_valid
  Quantity-of_valid q h =
      let passed = sym (schemas.number_lem quantity_schema (number q)) ∙ h in
      let checks : (f.is_safe_integer q ≡ true)
          × (f.lt (whole 0) q ≡ true)
          × (f.le q (whole max_quantity) ≡ true) =
        ground arith in
      let (safe, pos, le) = checks in
      let (n, c) = ieee.count_of_safe q safe (ieee.le_of_lt _ _ pos) in
      (n, (c, ieee.count_pos q n c pos, ieee.count_le q n max_quantity c le))

  pub valid_of_Quantity : (q : N) (n : ℕ) → Quantity q n → quantity_valid q ≡ true
  unfolding quantity_valid
  valid_of_Quantity q n (c, pos, le) =
      let (safe, fin, nonneg) = ieee.safe_of_count q n c in
      schemas.number_lem quantity_schema (number q)
      ∙ ground (
        arith,
        ieee.lt_of_count_pos q n c pos,
        ieee.le_of_count q n max_quantity c le (omega arith),
      )

  abbrev pub IsOnEarth : GeoPoint N → Type 0
  IsOnEarth p = (is_within 90 p.latitude ≡ true) × (is_within 180 p.longitude ≡ true)

  pub coordinate_within :
      (limit : ℕ) (x : N)
      → conforms_number
          (NumberCheck.min (f.neg (whole limit)) ∷ NumberCheck.max (whole limit) ∷ [])
          (number x)
        ≡ true
      → limit ≤ 2 ^ 53
      → is_within limit x ≡ true
  coordinate_within limit x h small =
      let bounds : (f.le (f.neg (whole limit)) x ≡ true) × (f.le x (whole limit) ≡ true) =
        ground arith in
      ieee.within_of_le limit x bounds.0 bounds.1 small

  pub IsOnEarth-of_valid : (p : GeoPoint N) → geo_point_valid p ≡ true → IsOnEarth p
  unfolding geo_point_valid
  IsOnEarth-of_valid p h =
      let fields = sym (schemas.object_lem _) ∙ h in
      let parts : (is_empty (z.number_issues latitude_schema (number p.latitude)) ≡ true)
          × (is_empty (z.number_issues longitude_schema (number p.longitude)) ≡ true) =
        ground arith in
      (
        coordinate_within 90 p.latitude (sym (schemas.number_lem _ _) ∙ parts.0) (omega arith),
        coordinate_within 180 p.longitude (sym (schemas.number_lem _ _) ∙ parts.1) (omega arith),
      )
