-- ===== src/Gnss.antt =====
-- The GNSS fix. libel/libel.c: `sky_add_gnss`; libel/beacons.c: `cached_gnss_worse`;
-- libel/utilities.c: the `get_gnss_` fields; libel/protocol/proto.c: their scaling and
-- `encode_gnss_fields`. Infinities are left out of the floats: a float out of every range is a large
-- number. The logging is left out.
pub mod Limits
pub mod Trip
use embedded_client.Errors.{set_error_status}
use embedded_client.Validate.Beacons.{validate_request_ctx}
use embedded_client.Encode.{Nanopb, DataGetter, encode_repeated_int_field, and_also}
use embedded_client.Common.{
  negsuc, some, suc, true, none, false, pos, ◌==◌, ◌&&◌, ◌||◌, ◌*◌, ◌/◌, ◌%◌, ◌^◌, ◌-ℤ◌,
  if◌then◌else◌, ℕ, Bool, ℤ, Option, not, neg, ltb, eqb_ℤ, ltb_ℤ, pos_part,
}
use embedded_client.Types.{
  error_bad_parameters, error_none, error_bad_time, error_bad_request_ctx, Rctx, Gnss, Errno,
  CacheLine, has_gnss, time_unavailable, Status, timestamp_2019_03_01, u32,
}
use embedded_client.Float.{fin, nan, Float, lt, of_int, le, sub}

-- What the caller gives. `hpe`, `vpe` and `nsat` are `uint16_t`.
pub record Fix : Type 0 where
  pub lat : Float
  pub lon : Float
  pub hpe : ℕ
  pub altitude : Float
  pub vpe : ℕ
  pub speed : Float
  pub bearing : Float
  pub nsat : ℕ
  pub timestamp : ℤ

-- `isnan`
abbrev pub is_nan : Float → Bool
is_nan nan = true
is_nan (fin z) = false

-- The age of the fix, or `none` where the times are refused.
unfoldable pub gnss_age : ℕ → ℤ → Option ℕ
gnss_age now timestamp =
    if (now == time_unavailable) || eqb_ℤ timestamp (pos time_unavailable)
    then some 0
    else if not (ltb_ℤ (pos now) timestamp) && ltb_ℤ (pos timestamp_2019_03_01) timestamp
    then some (pos_part (pos now -ℤ timestamp) % u32)
    else none

-- A comparison with a NaN is false, so that an unknown speed passes.
unfoldable pub out_of_range : Fix → Bool
out_of_range f =
    (not (is_nan f.altitude)
      && (lt f.altitude (of_int (neg 1200)) || lt (of_int (pos 8900)) f.altitude))
    || ltb 100000 f.hpe
    || lt f.speed (of_int (pos 0))
    || lt (of_int (pos 343)) f.speed
    || ltb 100 f.nsat

abbrev set_age : Rctx → ℕ → Rctx
set_age r age = record r { gnss = record (r.gnss) { age = age } }

abbrev pub stored : Fix → ℕ → Gnss
stored f age = record {
  lat = f.lat;
  lon = f.lon;
  hpe = f.hpe;
  alt = f.altitude;
  vpe = f.vpe;
  speed = f.speed;
  bearing = f.bearing;
  nsat = f.nsat;
  age = age;
}

-- Once the age is known, which is stored at once.
abbrev pub add_aged_fix : Rctx → Fix → ℕ → Rctx × Errno × Status
add_aged_fix r f age =
    let r1 = set_age r age in
    let (ok, r2) = validate_request_ctx r1 in
    if is_nan f.lat || is_nan f.lon
    then set_error_status r1 error_none
    else if out_of_range f
    then set_error_status r1 error_bad_parameters
    else if not ok
    then set_error_status r2 error_bad_request_ctx
    else set_error_status (record r2 { gnss = stored f r2.gnss.age }) error_none

unfoldable pub sky_add_gnss : Rctx → Fix → Rctx × Errno × Status
sky_add_gnss r f = elim (gnss_age r.header.time f.timestamp) [
  | none ↦ set_error_status r error_bad_time
  | some age ↦ add_aged_fix r f age
]

-- Double precision, with the C library's mathematics.
pub record Doubles : Type 1 where
  pub Double : Type 0
  pub of_float : Float → Double
  pub to_float : Double → Float
  pub plus : Double → Double → Double
  pub times : Double → Double → Double
  pub over : Double → Double → Double
  pub acos : Double → Double
  pub cos : Double → Double
  pub sin : Double → Double

-- `RADIANS(d)`, with `PI` as the arc cosine of -1. A difference of floats is one of single precision.
abbrev pub radians : (m : Doubles) → Float → m.Double
radians m d =
    let pi = m.acos (m.of_float (of_int (negsuc 0))) in
    m.times (m.over pi (m.of_float (of_int (pos 180)))) (m.of_float d)

unfoldable pub distance_A_to_B : Doubles → Float → Float → Float → Float → Float
distance_A_to_B m lat_a lon_a lat_b lon_b =
    let a = radians m (sub (of_int (pos 90)) lat_a) in
    let b = radians m (sub (of_int (pos 90)) lat_b) in
    let cosines = m.times (m.cos a) (m.cos b) in
    let sines = m.times (m.times (m.sin a) (m.sin b)) (m.cos (radians m (sub lon_a lon_b))) in
    m.to_float (m.times (m.of_float (of_int (pos (1000 * 6371)))) (m.acos (m.plus cosines sines)))

unfoldable pub cached_gnss_worse : Doubles → Rctx → CacheLine → Bool
cached_gnss_worse m r cl =
    if not (has_gnss r.gnss)
    then false
    else if not (has_gnss cl.gnss)
    then true
    else if ltb r.gnss.hpe cl.gnss.hpe
    then true
    else if le (of_int (pos r.gnss.hpe))
        (distance_A_to_B m r.gnss.lat r.gnss.lon cl.gnss.lat cl.gnss.lon)
    then true
    else false

unfoldable pub get_num_gnss : Rctx → ℕ
get_num_gnss r = if has_gnss r.gnss then 1 else 0

unfoldable pub get_gnss_lat : Rctx → ℕ → Float
get_gnss_lat r idx = if has_gnss r.gnss then r.gnss.lat else nan

unfoldable pub get_gnss_lon : Rctx → ℕ → Float
get_gnss_lon r idx = if has_gnss r.gnss then r.gnss.lon else nan

unfoldable pub get_gnss_hpe : Rctx → ℕ → ℤ
get_gnss_hpe r idx = if has_gnss r.gnss then pos r.gnss.hpe else pos 0

unfoldable pub get_gnss_alt : Rctx → ℕ → Float
get_gnss_alt r idx = if has_gnss r.gnss then r.gnss.alt else nan

unfoldable pub get_gnss_vpe : Rctx → ℕ → ℤ
get_gnss_vpe r idx = if has_gnss r.gnss then pos r.gnss.vpe else pos 0

unfoldable pub get_gnss_speed : Rctx → ℕ → Float
get_gnss_speed r idx = if has_gnss r.gnss then r.gnss.speed else nan

unfoldable pub get_gnss_nsat : Rctx → ℕ → ℤ
get_gnss_nsat r idx = if has_gnss r.gnss then pos r.gnss.nsat else pos 0

unfoldable pub get_gnss_age : Rctx → ℕ → ℤ
get_gnss_age r idx = if has_gnss r.gnss then pos r.gnss.age else pos 0

-- `of_nan` is what the machine makes of a NaN that is converted to an integer; C leaves it undefined.
module _ (of_nan : ℤ) where
  -- `(int64_t)(x * factor)`: the product of a float and such a factor is exact in double precision.
  unfoldable pub scaled : ℕ → Float → ℤ
  scaled factor nan = of_nan
  scaled factor (fin (pos n)) = pos (n * factor / 2 ^ 149)
  scaled factor (fin (negsuc n)) = neg (suc n * factor / 2 ^ 149)

  unfoldable pub get_gnss_bearing : Rctx → ℕ → ℤ
  get_gnss_bearing r idx = if has_gnss r.gnss then scaled 1 r.gnss.bearing else pos 0

  unfoldable pub get_gnss_lat_scaled : Rctx → ℕ → ℤ
  get_gnss_lat_scaled r idx = scaled 1000000 (get_gnss_lat r idx)

  unfoldable pub get_gnss_lon_scaled : Rctx → ℕ → ℤ
  get_gnss_lon_scaled r idx = scaled 1000000 (get_gnss_lon r idx)

  unfoldable pub get_gnss_alt_scaled : Rctx → ℕ → ℤ
  get_gnss_alt_scaled r idx = scaled 10 (get_gnss_alt r idx)

  unfoldable pub get_gnss_speed_scaled : Rctx → ℕ → ℤ
  get_gnss_speed_scaled r idx = scaled 10 (get_gnss_speed r idx)

  module _ (pb : Nanopb) where
    -- The tags are those of the message `Gnss`.
    unfoldable pub encode_gnss_fields : Rctx → pb.Stream → pb.Stream × Bool
    encode_gnss_fields r s =
        let n = get_num_gnss r in
        let field = λ (s' : pb.Stream) (t : ℕ) (getter : DataGetter).
          encode_repeated_int_field pb r s' t n getter none in
        and_also (field s 1 get_gnss_lat_scaled) (λ s1.
          and_also (field s1 2 get_gnss_lon_scaled) (λ s2. and_also (field s2 3 get_gnss_hpe) (λ s3.
            and_also (field s3 4 get_gnss_alt_scaled) (λ s4.
              and_also (field s4 5 get_gnss_vpe) (λ s5.
                and_also (field s5 6 get_gnss_speed_scaled) (λ s6.
                  and_also (field s6 7 get_gnss_bearing) (λ s7.
                    and_also (field s7 8 get_gnss_nsat) (λ s8. field s8 9 get_gnss_age))))))))
