-- ===== src/Shipping/Distance/Bounds.antt =====
-- A distance between two points on Earth is a finite number, not negative and bounded: the clamp
-- keeps the arcsine in its domain.
use scos.Prelude.{ℕ, ◌+◌, ◌*◌, ◌≤◌, ◌≡◌, true, arith}
use scos.Js.{Floats, IsIeee, whole}
use scos.Shared.Schemas.{GeoPoint}
use scos.Shipping.Distance.{
  earth_radius_km, degrees_to_radians, haversine_intermediate, central_angle_from_haversine,
  haversine_distance_km,
}

-- A bound on every distance, in kilometres: 6372 times an angle of at most 4.
abbrev pub max_distance_km : ℕ
max_distance_km = 25_488

module _ {N : Type 0} ⦃f : Floats N⦄ (ieee : IsIeee N) where
  open ieee use {is_within}

  -- Finite, not negative, and at most `n`.
  abbrev pub IsLength : ℕ → N → Type 0
  IsLength n x = (is_within n x ≡ true) × (f.le (whole 0) x ≡ true)

  radians :
      (n : ℕ) (x : N)
      → is_within n x ≡ true
      → n ≤ 1000
      → is_within (n * 4) (f.mul x degrees_to_radians) ≡ true
  radians n x h le =
      ieee.within_mul n 4 x degrees_to_radians h
        (ieee.within_div 4 180 f.pi ieee.within_pi (omega arith)) (omega arith)

  sin_half :
      (n : ℕ) (x y : N)
      → is_within n x ≡ true
      → is_within n y ≡ true
      → n ≤ 200
      → is_within 1 (f.sin (f.div (f.mul (f.sub x y) degrees_to_radians) (whole 2))) ≡ true
  sin_half n x y h k le =
      let delta = ieee.within_sub n n x y h k (omega arith) in
      let scaled = radians (n + n) (f.sub x y) delta (omega arith) in
      let half = ieee.within_div ((n + n) * 4) 2 _ scaled (omega arith) in
      ieee.within_sin _ (ieee.is_finite_of_within _ _ half)

  cos_latitude :
      (x : N) → is_within 90 x ≡ true → is_within 1 (f.cos (f.mul x degrees_to_radians)) ≡ true
  cos_latitude x h =
      ieee.within_cos _ (ieee.is_finite_of_within 360 _ (radians 90 x h (omega arith)))

  unit_mul :
      (x y : N) → is_within 1 x ≡ true → is_within 1 y ≡ true → is_within 1 (f.mul x y) ≡ true
  unit_mul x y h k = ieee.within_mul 1 1 x y h k (omega arith)

  pub haversine_intermediate-bound :
      (p q : GeoPoint N)
      → is_within 90 p.latitude ≡ true
      → is_within 180 p.longitude ≡ true
      → is_within 90 q.latitude ≡ true
      → is_within 180 q.longitude ≡ true
      → is_within 2 (haversine_intermediate p q) ≡ true
  unfolding haversine_intermediate
  haversine_intermediate-bound p q a b c e =
      let lat = sin_half 90 q.latitude p.latitude c a (omega arith) in
      let lon = sin_half 180 q.longitude p.longitude e b (omega arith) in
      let cosines = unit_mul _ _ (cos_latitude p.latitude a) (cos_latitude q.latitude c) in
      ieee.within_add 1 1 _ _ (unit_mul _ _ lat lat) (unit_mul _ _ (unit_mul _ _ cosines lon) lon)
        (omega arith)

  -- Whatever finite intermediate drift produces, the angle is a length of at most 4 radians.
  pub central_angle-IsLength :
      (n : ℕ) (a : N) → is_within n a ≡ true → IsLength 4 (central_angle_from_haversine a)
  unfolding central_angle_from_haversine
  central_angle-IsLength n a h =
      let (top, up) = ieee.max_zero n a h in
      let (unit, nonneg) = ieee.min_one n _ top up in
      let (root, root_nonneg) = ieee.sqrt_unit _ unit nonneg in
      let (arc, arc_nonneg) = ieee.asin_unit _ root root_nonneg in
      let two = ieee.within_literal 2 2 0 (omega arith) (omega arith) in
      (
        ieee.within_mul 2 2 (whole 2) _ two arc (omega arith),
        ieee.mul_nonneg (whole 2) _ (ieee.is_finite_of_within 2 _ two)
            (ieee.is_finite_of_within 2 _ arc) (ieee.literal_nonneg 2 0) arc_nonneg,
      )

  -- The distance between two points with coordinates in range is finite, not negative and at most
  -- 25,488 km.
  pub haversine_distance_km-IsLength :
      (p q : GeoPoint N)
      → is_within 90 p.latitude ≡ true
      → is_within 180 p.longitude ≡ true
      → is_within 90 q.latitude ≡ true
      → is_within 180 q.longitude ≡ true
      → IsLength max_distance_km (haversine_distance_km p q)
  unfolding haversine_distance_km
  haversine_distance_km-IsLength p q a b c e =
      let (angle, nonneg) = central_angle-IsLength 2 _ (haversine_intermediate-bound p q a b c e) in
      let radius = ieee.within_literal 6372 63_710_088 4 (omega arith) (omega arith) in
      (
        ieee.within_mul 6372 4 earth_radius_km _ radius angle (omega arith),
        ieee.mul_nonneg earth_radius_km _ (ieee.is_finite_of_within 6372 _ radius)
            (ieee.is_finite_of_within 4 _ angle) (ieee.literal_nonneg 63_710_088 4) nonneg,
      )
