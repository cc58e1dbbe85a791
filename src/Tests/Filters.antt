-- ===== src/Tests/Filters.antt =====
-- Scenarios of the unit tests of plugins/ap_plugin_basic.c.
use embedded_client.Float.{le, add, sub, of_int, abs, mul, div, eq}
use embedded_client.Mac.{memcmp, mac_similar}
use embedded_client.Beacons.Remove.{remove_beacon}
use embedded_client.Plugins.ApWorst.{
  ap_remove_worst, set_priorities, search_loop, consider, get_priority, is_worse, advance,
  remove_ap, remove_virtual_ap, worst_vap, outer_loop, inner_loop, visit_pair, candidate,
  remove_oldest_ap, age_loop, visit_age, ap_below_rssi_threshold,
}
use embedded_client.Plugins.Compare.{
  ap_equal, ap_compare, cell_equal, cell_compare, cell_diff, cell_priority,
}
use embedded_client.Plugins.Chain.{
  sky_plugin_equal, sky_plugin_compare, sky_plugin_remove_worst, cell_remove_worst,
}
use embedded_client.Beacons.Cache.{beacon_in_cache, beacon_in_cacheline, search_cacheline}
use embedded_client.Crc.{sky_crc32, header_bytes}
use embedded_client.Validate.{validate_beacon, lte_bad}
use embedded_client.Validate.Beacons.{validate_request_ctx, validate_slots, header_valid}
use embedded_client.Beacons.Add.{add_beacon, add_aged, add_checked, filter_beacons, beacon_age}
use embedded_client.Api.{sky_add_ap_beacon, sky_add_cell_lte_neighbor_beacon}
use embedded_client.Tests.Samples.{sample_session, sample_config, sample_request}
use embedded_client.Api.Sequences.{add_ap, calls, call, Call, add_lte_neighbor}
use embedded_client.Beacons.Insert.{
  out_of_bounds, done, Run, insert_beacon, find_duplicate, find_position, find_inserted, place,
  is_beacon_first, keep_new,
}
use embedded_client.Types.{error_none, Session, Rctx, Errno, Beacon, num_beacons}
use embedded_client.Common.{
  ℕ, pos, refl, [], false, ◌∷◌, List, ℤ, map, get_or, ◌-ℤ◌, neg, ◌≡◌, some, suc, zero, none, Option,
  to_i32,
}

-- A session that allows three APs.
abbrev three_aps : Session
three_aps = record sample_session { config = record (sample_config) { max_ap_beacons = 3 } }

abbrev last_bytes : Run (Rctx × Errno) → List ℕ
last_bytes out_of_bounds = []
last_bytes (done (r, e)) = map (λ (b : Beacon). get_or b.ap.mac 5 0) r.beacon

abbrev add_test_ap : List ℕ → ℤ → Call
add_test_ap mac rssi = add_ap mac (pos 0) rssi (pos 3660) false

-- "remove_worst removes ap with worst fit to ideal rssi"
worst_fit :
    last_bytes (
      calls
        (add_test_ap (0x4C ∷ 0x5E ∷ 0x0C ∷ 0xB0 ∷ 0x17 ∷ 0x4B ∷ []) (neg 50)
          ∷ add_test_ap (0x3B ∷ 0x5E ∷ 0x0C ∷ 0xB0 ∷ 0x17 ∷ 0x4D ∷ []) (neg 90)
          ∷ add_test_ap (0x2A ∷ 0x5E ∷ 0x0C ∷ 0xB0 ∷ 0x17 ∷ 0x4C ∷ []) (neg 76)
          ∷ add_test_ap (0x19 ∷ 0x5E ∷ 0x0C ∷ 0xB0 ∷ 0x17 ∷ 0x4A ∷ []) (neg 60)
          ∷ [])
        (sample_request three_aps 0 [])
        error_none)
    ≡ 0x4B ∷ 0x4C ∷ 0x4D ∷ []
unfolding calls call sky_add_ap_beacon add_beacon add_aged add_checked filter_beacons beacon_age
    validate_request_ctx validate_slots header_valid validate_beacon sky_crc32 header_bytes
    beacon_in_cache beacon_in_cacheline search_cacheline insert_beacon find_duplicate find_position
    find_inserted place is_beacon_first keep_new sky_plugin_equal sky_plugin_compare
    sky_plugin_remove_worst ap_equal ap_compare cell_equal cell_compare cell_remove_worst
    ap_remove_worst set_priorities search_loop consider get_priority is_worse advance remove_ap
    remove_virtual_ap worst_vap outer_loop inner_loop visit_pair candidate remove_oldest_ap age_loop
    visit_age remove_beacon memcmp mac_similar ◌-ℤ◌ ap_below_rssi_threshold to_i32 le add sub of_int
    abs mul div eq
worst_fit = refl

-- `total_beacons` lowered to 6, `max_ap_beacons` left at 20.
abbrev inverted : Session
inverted = record sample_session { config = record (sample_config) { total_beacons = 6 } }

abbrev neighbors : ℕ → List Call
neighbors zero = []
neighbors (suc n) = add_lte_neighbor (pos n) (pos 1000) (pos 0) (neg 90) ∷ neighbors n

abbrev outcome : Run (Rctx × Errno) → Option ℕ
outcome out_of_bounds = none
outcome (done (r, e)) = some (num_beacons r)

-- Thirty neighbour cells overrun the array.
overrun : outcome (calls (neighbors 30) (sample_request inverted 0 []) error_none) ≡ none
unfolding calls call sky_add_ap_beacon add_beacon add_aged add_checked filter_beacons beacon_age
    validate_request_ctx validate_slots header_valid validate_beacon sky_crc32 header_bytes
    beacon_in_cache beacon_in_cacheline search_cacheline insert_beacon find_duplicate find_position
    find_inserted place is_beacon_first keep_new sky_plugin_equal sky_plugin_compare
    sky_plugin_remove_worst ap_equal ap_compare cell_equal cell_compare cell_remove_worst
    ap_remove_worst set_priorities search_loop consider get_priority is_worse advance remove_ap
    remove_virtual_ap worst_vap outer_loop inner_loop visit_pair candidate remove_oldest_ap age_loop
    visit_age remove_beacon memcmp mac_similar ◌-ℤ◌ ap_below_rssi_threshold to_i32 le add sub of_int
    abs mul div eq sky_add_cell_lte_neighbor_beacon lte_bad cell_diff cell_priority
overrun = refl
