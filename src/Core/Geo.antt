-- ===== src/Core/Geo.antt =====
-- `haversine_distance` and `bounding_box` of apps/core/utils.py, over the arithmetic of doubles, which
-- is a parameter.
use ishly_back.Prelude.{ℕ, Bool, true, false, ◌≡◌}
use ishly_back.Data.Jobs.{Double}

-- Python's float and the functions of its module `math`. `lt` is the order of the numbers, so it goes
-- one way only.
pub record FloatOps : Type 0 where
  pub of_nat : ℕ → Double
  pub add : Double → Double → Double
  pub sub : Double → Double → Double
  pub mul : Double → Double → Double
  pub div : Double → Double → Double
  pub neg : Double → Double
  pub square : Double → Double
  pub sqrt : Double → Double
  pub sin : Double → Double
  pub cos : Double → Double
  pub atan2 : Double → Double → Double
  pub radians : Double → Double
  -- `round(x, 2)`
  pub round : Double → Double
  pub le : Double → Double → Bool
  pub lt : Double → Double → Bool
  pub is_zero : Double → Bool
  pub lt_asym : (x y : Double) → lt x y ≡ true → lt y x ≡ false

-- `haversine_distance`, in km
unfoldable pub haversine_distance : FloatOps → Double → Double → Double → Double → Double
haversine_distance fl lat1 lon1 lat2 lon2 =
    let two = fl.of_nat 2 in
    let phi1 = fl.radians lat1 in
    let phi2 = fl.radians lat2 in
    let dphi = fl.radians (fl.sub lat2 lat1) in
    let dlambda = fl.radians (fl.sub lon2 lon1) in
    let a =
      fl.add (fl.square (fl.sin (fl.div dphi two)))
        (fl.mul (fl.mul (fl.cos phi1) (fl.cos phi2)) (fl.square (fl.sin (fl.div dlambda two)))) in
    let c = fl.mul two (fl.atan2 (fl.sqrt a) (fl.sqrt (fl.sub (fl.of_nat 1) a))) in
    fl.mul (fl.of_nat 6371) c

pub record Box : Type 0 where
  pub lat_min : Double
  pub lat_max : Double
  pub lon_min : Double
  pub lon_max : Double

-- `bounding_box`
unfoldable pub bounding_box : FloatOps → Double → Double → Double → Box
bounding_box fl lat lon radius_km =
    let lat_delta = fl.div radius_km (fl.of_nat 111) in
    let lon_delta = fl.div radius_km (fl.mul (fl.of_nat 111) (fl.cos (fl.radians lat))) in
    record {
      lat_min = fl.sub lat lat_delta;
      lat_max = fl.add lat lat_delta;
      lon_min = fl.sub lon lon_delta;
      lon_max = fl.add lon lon_delta;
    }
