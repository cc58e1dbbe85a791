-- ===== src/Config/Overrides.antt =====
-- libel/utilities.c: `config_defaults`; libel/protocol/proto.c: `apply_config_overrides` and the
-- part of `deserialize_response` that calls it.
use embedded_client.Types.{
  Config, total_beacons_max, max_ap_beacons_max, cache_match_threshold_used,
  cache_match_threshold_all, cache_age_threshold_max, cache_beacon_threshold_max,
  cache_rssi_threshold, max_vap_per_ap_max, max_vap_per_rq_max,
}
use embedded_client.Common.{ℕ, if◌then◌else◌, Bool, ◌==◌, not, ltb, ◌&&◌, leb, ◌||◌}

unfoldable pub or_default : ℕ → ℕ → ℕ
or_default value default = if value == 0 then default else value

unfoldable pub config_defaults : Config → Config
config_defaults c = record c {
  total_beacons = or_default c.total_beacons total_beacons_max;
  max_ap_beacons = or_default c.max_ap_beacons max_ap_beacons_max;
  cache_match_used_threshold = or_default c.cache_match_used_threshold cache_match_threshold_used;
  cache_match_all_threshold = or_default c.cache_match_all_threshold cache_match_threshold_all;
  cache_age_threshold = or_default c.cache_age_threshold cache_age_threshold_max;
  cache_beacon_threshold = or_default c.cache_beacon_threshold cache_beacon_threshold_max;
  cache_neg_rssi_threshold = or_default c.cache_neg_rssi_threshold cache_rssi_threshold;
  max_vap_per_ap = or_default c.max_vap_per_ap max_vap_per_ap_max;
  max_vap_per_rq = or_default c.max_vap_per_rq max_vap_per_rq_max;
}

-- The fields of the decoded `ClientConfig` message that the library reads; 0 is an absent field.
pub record ClientConfig : Type 0 where
  pub total_beacons : ℕ
  pub max_ap_beacons : ℕ
  pub cache_match_all_threshold : ℕ
  pub cache_match_used_threshold : ℕ
  pub cache_age_threshold : ℕ
  pub cache_beacon_threshold : ℕ
  pub cache_neg_rssi_threshold : ℕ

-- The value sent replaces the current one if it is present, different and allowed.
unfoldable pub override : ℕ → ℕ → Bool → ℕ
override sent current allowed =
    if not (sent == 0) && not (sent == current)
    then (if allowed then sent else current)
    else current

unfoldable pub apply_config_overrides : Config → ClientConfig → Config × Bool
apply_config_overrides c rs =
    let c0 = config_defaults c in
    let total =
      override rs.total_beacons c0.total_beacons
        (ltb rs.total_beacons total_beacons_max && ltb 1 rs.total_beacons) in
    (
      record c0 {
        total_beacons = total;
        max_ap_beacons =
            override rs.max_ap_beacons c0.max_ap_beacons (ltb rs.max_ap_beacons max_ap_beacons_max);
        cache_match_all_threshold =
            override rs.cache_match_all_threshold c0.cache_match_all_threshold
              (ltb 0 rs.cache_match_all_threshold && leb rs.cache_match_all_threshold 100);
        cache_match_used_threshold =
            override rs.cache_match_used_threshold c0.cache_match_used_threshold
              (ltb 0 rs.cache_match_used_threshold && leb rs.cache_match_used_threshold 100);
        cache_age_threshold =
            override rs.cache_age_threshold c0.cache_age_threshold
              (ltb rs.cache_age_threshold 9000);
        cache_beacon_threshold =
            override rs.cache_beacon_threshold c0.cache_beacon_threshold
              (ltb rs.cache_beacon_threshold total);
        cache_neg_rssi_threshold =
            override rs.cache_neg_rssi_threshold c0.cache_neg_rssi_threshold
              (leb 10 rs.cache_neg_rssi_threshold && ltb rs.cache_neg_rssi_threshold 128);
      },
      not (rs.total_beacons == 0)
          || not (rs.max_ap_beacons == 0)
          || not (rs.cache_match_all_threshold == 0)
          || not (rs.cache_match_used_threshold == 0)
          || not (rs.cache_age_threshold == 0)
          || not (rs.cache_beacon_threshold == 0)
          || not (rs.cache_neg_rssi_threshold == 0),
    )
