-- ===== src/Shipping/Distance.antt =====
-- `packages/core/src/domain/shipping/distance.ts`: the Haversine formula in number arithmetic.
pub mod Bounds
use scos.Prelude.{ℕ}
use scos.Js.{Floats, whole}
use scos.Shared.Schemas.{GeoPoint}

module _ {N : Type 0} ⦃f : Floats N⦄ where
  open f use {literal, pi, add, sub, mul, div, max, min, sin, cos, asin, sqrt}

  -- EARTH_RADIUS_KM
  abbrev pub earth_radius_km : N
  earth_radius_km = literal 63_710_088 4

  -- DEGREES_TO_RADIANS
  abbrev pub degrees_to_radians : N
  degrees_to_radians = div pi (whole 180)

  -- `haversineIntermediate`
  unfoldable pub haversine_intermediate : GeoPoint N → GeoPoint N → N
  haversine_intermediate source target =
      let lat1 = mul source.latitude degrees_to_radians in
      let lat2 = mul target.latitude degrees_to_radians in
      let delta_lat = mul (sub target.latitude source.latitude) degrees_to_radians in
      let delta_lon = mul (sub target.longitude source.longitude) degrees_to_radians in
      let sin_half_lat = sin (div delta_lat (whole 2)) in
      let sin_half_lon = sin (div delta_lon (whole 2)) in
      add (mul sin_half_lat sin_half_lat)
        (mul (mul (mul (cos lat1) (cos lat2)) sin_half_lon) sin_half_lon)

  -- `centralAngleFromHaversine`
  unfoldable pub central_angle_from_haversine : N → N
  central_angle_from_haversine a = mul (whole 2) (asin (sqrt (min (whole 1) (max (whole 0) a))))

  -- `haversineDistanceKm`
  unfoldable pub haversine_distance_km : GeoPoint N → GeoPoint N → N
  unfolding haversine_intermediate central_angle_from_haversine
  haversine_distance_km source target =
      mul earth_radius_km (central_angle_from_haversine (haversine_intermediate source target))
