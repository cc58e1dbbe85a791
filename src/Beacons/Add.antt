-- ===== src/Beacons/Add.antt =====
-- libel/beacons.c: `add_beacon`, from the checks to the filtering of a full request context.
pub mod Limits
pub mod Valid
use embedded_client.Errors.{set_error_status}
use embedded_client.Plugins.Chain.{num_cells, cell_limit, sky_plugin_remove_worst}
use embedded_client.Validate.{validate_beacon}
use embedded_client.Beacons.Cache.{beacon_in_cache}
use embedded_client.Validate.Beacons.{validate_request_ctx}
use embedded_client.Beacons.Insert.{Run, done, insert_beacon, out_of_bounds}
use embedded_client.Types.{
  Rctx, Errno, Status, Beacon, is_ap_type, num_beacons, time_unavailable, error_bad_request_ctx,
  error_never_open, timestamp_2019_03_01, error_bad_parameters, error_bad_time, u32, error, success,
  error_internal,
}
use embedded_client.Common.{
  ℕ, ℤ, ◌⊎◌, Bool, if◌then◌else◌, leb, not, ◌&&◌, eqb_ℤ, ◌==◌, pos, ltb_ℤ, inr, inl, ◌||◌, ◌-ℤ◌,
  ◌%◌, negsuc,
}

-- `NUM_APS <= max_ap_beacons && NUM_CELLS <= total_beacons - max_ap_beacons`
abbrev pub within_limits : Rctx → Bool
within_limits r =
    leb r.num_ap r.session.config.max_ap_beacons && leb (num_cells r) (cell_limit r.session.config)

-- The age of a beacon scanned at `timestamp`, or the code that refuses it.
unfoldable pub beacon_age : ℕ → ℤ → ℕ ⊎ Errno
beacon_age now timestamp =
    if not (eqb_ℤ timestamp (pos time_unavailable)) && ltb_ℤ timestamp (pos timestamp_2019_03_01)
    then inr error_bad_time
    else if (now == time_unavailable) || eqb_ℤ timestamp (pos time_unavailable)
    then inl 0
    else elim (pos now -ℤ timestamp) [ pos d ↦ inl (d % u32) | negsuc _ ↦ inr error_bad_parameters ]

-- What follows an insertion into a context of `n` beacons.
unfoldable pub filter_beacons : ℕ → Run (Rctx × Errno × Status) → Run (Rctx × Errno × Status)
filter_beacons n out_of_bounds = out_of_bounds
filter_beacons n (done (q, code, error)) = done (q, code, error)
filter_beacons n (done (q, code, success)) =
    if n == num_beacons q
    then done (q, code, success)
    else if within_limits q
    then done (q, code, success)
    else (let (q', code', ret) = sky_plugin_remove_worst q.session.plugins q in
        elim ret [
          | error ↦ done (set_error_status q' error_internal)
          | success ↦ done (q', code', success)
        ])

-- A beacon that has passed the checks goes in.
unfoldable pub add_checked : Rctx → Errno → Beacon → Run (Rctx × Errno × Status)
add_checked r code b =
    let b' =
      if is_ap_type b then (beacon_in_cache r.session.plugins b r.session.cacheline).1 else b in
    filter_beacons (num_beacons r) (insert_beacon r code b')

-- The age goes into the beacon, unless the time was refused.
unfoldable pub add_aged : Rctx → Errno → Beacon → ℕ ⊎ Errno → Run (Rctx × Errno × Status)
add_aged r code b (inl age) = add_checked r code (record b { age = age })
add_aged r code b (inr refused) = done (set_error_status r refused)

unfoldable pub add_beacon : Rctx → Errno → Beacon → ℤ → Run (Rctx × Errno × Status)
add_beacon r code b timestamp =
    let (good_ctx, r') = validate_request_ctx r in
    let (good, b') = validate_beacon b in
    if not good_ctx
    then done (set_error_status r' error_bad_request_ctx)
    else if not r'.session.open_flag
    then done (set_error_status r' error_never_open)
    else if not good
    then done (set_error_status r' error_bad_parameters)
    else add_aged r' code b' (beacon_age r'.header.time timestamp)
