-- ===== src/Shared/Schemas.antt =====
-- `packages/core/src/domain/shared/destination.ts` and `quantity.ts`: the schemas of coordinates and
-- quantities.
pub mod Laws
use scos.Prelude.{ℕ, ◌≤◌, ◌≡◌, Bool, true, some, List, [], ◌∷◌, codes, arith, ◌&&◌, &&-eq-true}
use scos.Js.{Floats, IsIeee, JsValue, number, whole, natural}
use scos.Zod.{Zod, IsZod, NumberCheck, int, positive, nonnegative, is_empty, Issue}
use scos.Zod
use scos.Shared.Money.{max_quantity}

-- A point on Earth in decimal degrees; a Destination is one that was validated.
pub record GeoPoint (N : Type 0) : Type 0 where
  pub latitude : N
  pub longitude : N

-- LATITUDE_LIMIT and LONGITUDE_LIMIT
abbrev pub latitude_limit : ℕ
latitude_limit = 90

abbrev pub longitude_limit : ℕ
longitude_limit = 180

module _ {N : Type 0} ⦃f : Floats N⦄ where
  abbrev pub latitude_schema : List (NumberCheck N)
  latitude_schema = Zod.min (f.neg (whole latitude_limit)) ∷ Zod.max (whole latitude_limit) ∷ []

  abbrev pub longitude_schema : List (NumberCheck N)
  longitude_schema = Zod.min (f.neg (whole longitude_limit)) ∷ Zod.max (whole longitude_limit) ∷ []

  abbrev pub quantity_schema : List (NumberCheck N)
  quantity_schema = int ∷ positive ∷ Zod.max (whole max_quantity) ∷ []

  -- `quantitySchema.safeParse(quantity).success`
  unfoldable pub quantity_valid : ⦃z : Zod N⦄ → N → Bool
  quantity_valid ⦃z⦄ q = is_empty (z.number_issues quantity_schema (number q))

  -- `geoPointSchema.safeParse(point).success`
  unfoldable pub geo_point_valid : ⦃z : Zod N⦄ → GeoPoint N → Bool
  geo_point_valid ⦃z⦄ p = is_empty (
      z.object_issues (
        (codes "latitude", z.number_issues latitude_schema (number p.latitude))
        ∷ (codes "longitude", z.number_issues longitude_schema (number p.longitude))
        ∷ []))
