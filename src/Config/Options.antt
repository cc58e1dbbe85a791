-- ===== src/Config/Options.antt =====
-- libel/libel.c: `sky_get_option` and `sky_set_option`. They act on the session alone.
use embedded_client.Types.{
  error, error_none, error_bad_parameters, success, Session, Errno, u32, Status, Config,
  total_beacons_max, max_ap_beacons_max,
}
use embedded_client.Common.{
  ℕ, false, none, negsuc, true, some, pos, ℤ, ◌%◌, Option, Bool, ltb_ℤ, ◌-◌, ◌||◌,
}

-- `Sky_config_name_t`; `conf_unknown` is any other number too.
pub data ConfigName : Type 0 where
  conf_total_beacons conf_max_ap_beacons conf_cache_match_threshold : ConfigName
  conf_cache_age_threshold conf_cache_beacon_threshold conf_cache_neg_rssi_threshold : ConfigName
  conf_cache_match_all_threshold conf_cache_match_used_threshold : ConfigName
  conf_max_vap_per_ap conf_max_vap_per_rq conf_logging_level conf_unknown : ConfigName

-- An `int32_t` stored in a `uint32_t`.
abbrev pub to_u32 : ℤ → ℕ
to_u32 (pos n) = n % u32
to_u32 (negsuc n) = u32 - 1 - n % u32

-- The value found, if any, and the code.
unfoldable pub sky_get_option : Session → ConfigName → Option ℕ × Errno × Status
sky_get_option s conf_total_beacons = (some s.config.total_beacons, error_none, success)
sky_get_option s conf_max_ap_beacons = (some s.config.max_ap_beacons, error_none, success)
sky_get_option s conf_cache_age_threshold = (some s.config.cache_age_threshold, error_none, success)
sky_get_option s conf_cache_beacon_threshold =
    (some s.config.cache_beacon_threshold, error_none, success)
sky_get_option s conf_cache_neg_rssi_threshold =
    (some s.config.cache_neg_rssi_threshold, error_none, success)
sky_get_option s conf_cache_match_all_threshold =
    (some s.config.cache_match_all_threshold, error_none, success)
sky_get_option s conf_cache_match_used_threshold =
    (some s.config.cache_match_used_threshold, error_none, success)
sky_get_option s conf_max_vap_per_ap = (some s.config.max_vap_per_ap, error_none, success)
sky_get_option s conf_max_vap_per_rq = (some s.config.max_vap_per_rq, error_none, success)
sky_get_option s conf_logging_level = (some s.min_level, error_none, success)
sky_get_option s conf_cache_match_threshold = (none, error_bad_parameters, error)
sky_get_option s conf_unknown = (none, error_bad_parameters, error)

-- A new configuration, unless the value is refused.
abbrev store : Session → Bool → Config → Session × Errno × Status
store s true c = (s, error_bad_parameters, error)
store s false c = (record s { config = c }, error_none, success)

abbrev exceeds : ℤ → ℕ → Bool
exceeds value top = ltb_ℤ (pos top) value

unfoldable pub sky_set_option : Session → ConfigName → ℤ → Session × Errno × Status
sky_set_option s conf_total_beacons value =
    store s (exceeds value total_beacons_max || ltb_ℤ value (pos 6))
      (record (s.config) { total_beacons = to_u32 value })
sky_set_option s conf_max_ap_beacons value =
    store s (exceeds value max_ap_beacons_max) (record (s.config) { max_ap_beacons = to_u32 value })
sky_set_option s conf_cache_age_threshold value =
    store s false (record (s.config) { cache_age_threshold = to_u32 value })
sky_set_option s conf_cache_beacon_threshold value =
    store s (exceeds value total_beacons_max)
      (record (s.config) { cache_beacon_threshold = to_u32 value })
sky_set_option s conf_cache_neg_rssi_threshold value =
    store s (exceeds value 128) (record (s.config) { cache_neg_rssi_threshold = to_u32 value })
sky_set_option s conf_cache_match_all_threshold value =
    store s (exceeds value 100) (record (s.config) { cache_match_all_threshold = to_u32 value })
sky_set_option s conf_cache_match_used_threshold value =
    store s (exceeds value 100) (record (s.config) { cache_match_used_threshold = to_u32 value })
sky_set_option s conf_max_vap_per_ap value =
    store s (exceeds value total_beacons_max) (record (s.config) { max_vap_per_ap = to_u32 value })
sky_set_option s conf_max_vap_per_rq value =
    store s (exceeds value total_beacons_max) (record (s.config) { max_vap_per_rq = to_u32 value })
sky_set_option s conf_logging_level value =
    (record s { min_level = to_u32 value }, error_none, success)
sky_set_option s conf_cache_match_threshold value = (s, error_bad_parameters, error)
sky_set_option s conf_unknown value = (s, error_bad_parameters, error)
