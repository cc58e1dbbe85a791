-- ===== src/Config/Ranges.antt =====
-- libel/utilities.c, libel/protocol/proto.c: the ranges of a configuration.
use embedded_client.Config.Overrides.{
  apply_config_overrides, config_defaults, ClientConfig, or_default, override,
}
use embedded_client.Types.{
  Config, total_beacons_max, max_ap_beacons_max, cache_match_threshold_used,
  cache_match_threshold_all, cache_age_threshold_max, cache_beacon_threshold_max,
  cache_rssi_threshold, max_vap_per_ap_max, max_vap_per_rq_max,
}
use embedded_client.Common.{ℕ, ◌≤◌, ◌≡◌, ◌⊎◌, arith, true, inr, inl, Bool, refl}

abbrev Between : ℕ → ℕ → ℕ → Type 0
Between low high v = (low ≤ v) × (v ≤ high)

-- The ranges that the overrides of the server respect.
abbrev pub Allowed : Config → Type 0
Allowed c =
    Between 2 28 c.total_beacons
    × Between 1 20 c.max_ap_beacons
    × Between 1 100 c.cache_match_all_threshold
    × Between 1 100 c.cache_match_used_threshold
    × Between 1 8999 c.cache_age_threshold
    × Between 1 28 c.cache_beacon_threshold
    × Between 10 128 c.cache_neg_rssi_threshold
    × Between 1 28 c.max_vap_per_ap
    × Between 1 28 c.max_vap_per_rq

-- No field is set yet.
abbrev pub Unset : Config → Type 0
Unset c =
    (c.total_beacons ≡ 0)
    × (c.max_ap_beacons ≡ 0)
    × (c.cache_match_all_threshold ≡ 0)
    × (c.cache_match_used_threshold ≡ 0)
    × (c.cache_age_threshold ≡ 0)
    × (c.cache_beacon_threshold ≡ 0)
    × (c.cache_neg_rssi_threshold ≡ 0)
    × (c.max_vap_per_ap ≡ 0)
    × (c.max_vap_per_rq ≡ 0)

or_default_set : (v d : ℕ) → 1 ≤ v → or_default v d ≡ v
unfolding or_default
or_default_set v d h = ground arith

config_defaults-Allowed : (c : Config) → Unset c ⊎ Allowed c → Allowed (config_defaults c)
unfolding config_defaults or_default
config_defaults-Allowed c (inl h) = ground arith
config_defaults-Allowed c (inr h) = ground arith

-- Nothing is left to fill in.
config_defaults_filled : (c : Config) → Allowed c → config_defaults c ≡ c
unfolding config_defaults
config_defaults_filled c h =
    rw
      (
        or_default_set c.total_beacons total_beacons_max (omega arith),
        or_default_set c.max_ap_beacons max_ap_beacons_max (omega arith),
        or_default_set c.cache_match_used_threshold cache_match_threshold_used (omega arith),
        or_default_set c.cache_match_all_threshold cache_match_threshold_all (omega arith),
        or_default_set c.cache_age_threshold cache_age_threshold_max (omega arith),
        or_default_set c.cache_beacon_threshold cache_beacon_threshold_max (omega arith),
        or_default_set c.cache_neg_rssi_threshold cache_rssi_threshold (omega arith),
        or_default_set c.max_vap_per_ap max_vap_per_ap_max (omega arith),
        or_default_set c.max_vap_per_rq max_vap_per_rq_max (omega arith),
      )
      refl

override-Between :
    (low high sent current : ℕ) (allowed : Bool)
    → Between low high current
    → (allowed ≡ true → (sent ≡ 0) ⊎ Between low high sent)
    → Between low high (override sent current allowed)
unfolding override
override-Between low high sent current allowed h a = ground arith

override_again :
    (sent current : ℕ) (allowed : Bool)
    → override sent (override sent current allowed) allowed ≡ override sent current allowed
unfolding override
override_again sent current allowed = ground arith

overridden-Allowed :
    (c : Config) (rs : ClientConfig)
    → Allowed (config_defaults c)
    → Allowed (apply_config_overrides c rs).0
unfolding apply_config_overrides
overridden-Allowed c rs h =
    let total : Between 2 28 (apply_config_overrides c rs).0.total_beacons =
      override-Between 2 28 rs.total_beacons (config_defaults c).total_beacons _ (h.0)
        (λ e. ground arith) in
    (
      total,
      override-Between 1 20 _ _ _ (h.1) (λ e. ground arith),
      override-Between 1 100 _ _ _ (h.2) (λ e. ground arith),
      override-Between 1 100 _ _ _ (h.3) (λ e. ground arith),
      override-Between 1 8999 _ _ _ (h.4) (λ e. ground arith),
      override-Between 1 28 _ _ _ (h.5) (λ e. ground (arith, total)),
      override-Between 10 128 _ _ _ (h.6) (λ e. ground arith),
      h.7,
      h.8,
    )

overridden_again :
    (c : Config) (rs : ClientConfig)
    → let q = (apply_config_overrides c rs).0 in
      config_defaults q ≡ q → (apply_config_overrides q rs).0 ≡ q
unfolding apply_config_overrides
overridden_again c rs h =
    rw
      (
        h,
        override_again rs.total_beacons (config_defaults c).total_beacons _,
        override_again rs.max_ap_beacons (config_defaults c).max_ap_beacons _,
        override_again rs.cache_match_all_threshold (config_defaults c).cache_match_all_threshold _,
        override_again rs.cache_match_used_threshold (config_defaults c).cache_match_used_threshold
            _,
        override_again rs.cache_age_threshold (config_defaults c).cache_age_threshold _,
        override_again rs.cache_beacon_threshold (config_defaults c).cache_beacon_threshold _,
        override_again rs.cache_neg_rssi_threshold (config_defaults c).cache_neg_rssi_threshold _,
      )
      refl

-- A configuration that is unset or within the allowed ranges is within them after the overrides of
-- any message; and the overrides of the same message, applied again, change nothing more.
pub apply_config_overrides-Allowed :
    (c : Config) (rs : ClientConfig)
    → Unset c ⊎ Allowed c
    → let q = (apply_config_overrides c rs).0 in Allowed q × ((apply_config_overrides q rs).0 ≡ q)
apply_config_overrides-Allowed c rs h =
    let allowed = overridden-Allowed c rs (config_defaults-Allowed c h) in
    (allowed, overridden_again c rs (config_defaults_filled _ allowed))
