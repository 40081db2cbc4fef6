-- ===== src/Geo.antt =====
-- lib/ff_core/geo.h and geo.cpp: great circles on a sphere, in degrees and metres.
use formation_flight.Prelude.{if◌then◌else◌}
use formation_flight.Maths.{Maths}
use formation_flight.RateControl.{Double}

module _ {D : Type 0} ⦃d : Double D⦄ ⦃m : Maths D⦄ where
  open d use {of_nat, add, sub, mul, div, lt}
  open m use {sqrt, sin, cos, asin, atan2, pi}

  unfoldable pub earth_radius_m : D
  earth_radius_m = of_nat 6371000

  unfoldable pub to_rad : D → D
  to_rad deg = div (mul deg pi) (of_nat 180)

  unfoldable pub to_deg : D → D
  to_deg rad = div (mul rad (of_nat 180)) pi

  unfoldable pub distance_m : D → D → D → D → D
  distance_m lat1 lon1 lat2 lon2 =
      let lat1r = to_rad lat1 in
      let lon1r = to_rad lon1 in
      let lat2r = to_rad lat2 in
      let lon2r = to_rad lon2 in
      let u = sin (div (sub lat2r lat1r) (of_nat 2)) in
      let v = sin (div (sub lon2r lon1r) (of_nat 2)) in
      let haversine = add (mul u u) (mul (mul (mul (cos lat1r) (cos lat2r)) v) v) in
      mul (mul (of_nat 2) earth_radius_m) (asin (sqrt haversine))

  unfoldable pub bearing_deg : D → D → D → D → D
  bearing_deg lat1 lon1 lat2 lon2 =
      let dlon = to_rad (sub lon2 lon1) in
      let lat1r = to_rad lat1 in
      let lat2r = to_rad lat2 in
      let a1 = mul (sin dlon) (cos lat2r) in
      let toward = mul (mul (sin lat1r) (cos lat2r)) (cos dlon) in
      let a2 = atan2 a1 (sub (mul (cos lat1r) (sin lat2r)) toward) in
      to_deg (if lt a2 (of_nat 0) then add a2 (mul (of_nat 2) pi) else a2)

  -- The latitude and the longitude.
  unfoldable pub point_at_distance : D → D → D → D → D × D
  point_at_distance lat lon dist_m bearing =
      let lat1 = to_rad lat in
      let lon1 = to_rad lon in
      let ang = div dist_m earth_radius_m in
      let brg = to_rad bearing in
      let lat2 = asin (add (mul (sin lat1) (cos ang)) (mul (mul (cos lat1) (sin ang)) (cos brg))) in
      let lon2 = add lon1 (
        atan2 (mul (mul (sin brg) (sin ang)) (cos lat1))
          (sub (cos ang) (mul (sin lat1) (sin lat2)))) in
      (to_deg lat2, to_deg lon2)
