-- ===== src/Session/Start.antt =====
-- libel/libel.c: `sky_new_request`; libel/utilities.c: `is_tbr_enabled`. The logging is left out.
use embedded_client.Session.Backoff.{backoff_violation}
use embedded_client.Crc.{sky_crc32, header_bytes}
use embedded_client.Types.{
  tbr_registered, tbr_disabled, error_never_open, beacon_max, tbr_unregistered,
  error_bad_parameters, error_service_denied, Session, Config, Header, TbrState, CacheLine,
  sky_magic, Rctx, time_unavailable, seconds_in_hour, timestamp_2019_03_01, u32, total_beacons_max,
  Errno, cache_empty, empty_slot, zero_beacon, no_fix, sky_max_ul_app_data,
}
use embedded_client.Beacons.Insert.{Run, done, out_of_bounds}
use embedded_client.Common.{
  ℕ, false, [], negsuc, inr, pos, inl, ◌∷◌, if◌then◌else◌, Bool, ltb_ℤ, not, ltb, ◌*◌, ◌-ℤ◌, ◌%◌,
  replicate, ◌⊎◌, get_or, ◌==◌, ◌||◌, length, ◌&&◌, ◌++◌, map, List,
}

-- The first character of the SKU is not the terminating zero.
unfoldable pub is_tbr_enabled : Session → Bool
is_tbr_enabled s = not (get_or s.sku 0 0 == 0)

unfoldable pub auth_state_of : Session → TbrState
auth_state_of s =
    if not (is_tbr_enabled s)
    then tbr_disabled
    else if s.token_id == 0
    then tbr_unregistered
    else tbr_registered

-- The limits that a cacheline may be over since the configuration has changed.
abbrev over_limits : Config → CacheLine → Bool
over_limits c cl = ltb c.max_ap_beacons cl.num_ap || ltb c.total_beacons (length cl.beacon)

-- `difftime(now, time) > cache_age_threshold * SECONDS_IN_HOUR`
abbrev pub too_old : Config → ℕ → ℕ → Bool
too_old c now time =
    ltb_ℤ (pos (c.cache_age_threshold * seconds_in_hour % u32)) (pos now -ℤ pos time)

-- A cacheline is cleared if it is over the limits, or the time is unknown, or it is too old.
unfoldable pub refresh : Config → ℕ → CacheLine → CacheLine
refresh c now cl =
    let cl1 = if over_limits c cl then record cl { time = time_unavailable } else cl in
    if not (cl1.time == cache_empty) && (now == time_unavailable)
    then record cl1 { time = cache_empty }
    else if not (cl1.time == cache_empty) && too_old c now cl1.time
    then record cl1 { time = cache_empty }
    else cl1

-- A time before March 2019 is taken for unknown.
abbrev pub good_time : ℕ → ℕ
good_time now =
    if ltb_ℤ (pos now -ℤ pos timestamp_2019_03_01) (pos 0) then time_unavailable else now

-- The header of a request of `size` bytes.
abbrev pub request_header : ℕ → ℕ → Header
request_header size now =
    let h : Header = record { magic = sky_magic; size = size; time = now % u32; crc32 = 0 } in
    record h { crc32 = sky_crc32 (header_bytes h) }

-- The request context once it is cleared and filled in: all slots but the last are marked empty.
unfoldable pub fresh_request : ℕ → ℕ → Session → Rctx
fresh_request size now s = record {
  header = request_header size now;
  num_ap = 0;
  beacon = [];
  spare = replicate total_beacons_max empty_slot ++ (zero_beacon beacon_max ∷ []);
  gnss = no_fix;
  hit = false;
  get_from = negsuc 0;
  save_to = negsuc 0;
  session = s;
  auth_state = auth_state_of s;
}

-- The session once it has the uplink data and a cache without stale lines.
abbrev pub requesting : Session → List ℕ → ℕ → Session
requesting s ul_app_data now = record s {
  ul_app_data = ul_app_data;
  cacheline = map (refresh s.config (good_time now)) s.cacheline;
}

-- The request, or the code that refuses it; the uplink data may be written past its array. `size` is the size of a request context, `rbufsize` the
-- one that the caller gives and `now` what the clock reads.
unfoldable pub sky_new_request : ℕ → ℕ → Session → List ℕ → ℕ → Run (Rctx ⊎ Errno)
sky_new_request size rbufsize s ul_app_data now =
    if not (rbufsize == size)
    then done (inr error_bad_parameters)
    else if not s.open_flag
    then done (inr error_never_open)
    else if backoff_violation s (good_time now)
    then done (inr error_service_denied)
    else if ltb sky_max_ul_app_data (length ul_app_data)
    then out_of_bounds
    else done (inl (fresh_request size now (requesting s ul_app_data now)))
