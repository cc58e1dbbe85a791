-- ===== src/Tests/Requests.antt =====
-- The theorems on requests and their beacons, at samples.
use embedded_client.Plugins.Compare.{ap_equal, cell_equal}
use embedded_client.Beacons.Cache.{serving_cell_changed, beacon_in_cacheline, search_cacheline}
use embedded_client.Plugins.CellMatch.Hits.{HitIn, cell_match-HitIn}
use embedded_client.Plugins.CellMatch.{
  cell_match, best_match, match_loop, comparable, full_score, score_cells, note, expire,
  conclude_match, first_empty,
}
use embedded_client.Validate.Ranges.{validate_beacon_again}
use embedded_client.Beacons.Insert.{insert_beacon}
use embedded_client.Plugins.Chain.{sky_plugin_remove_worst, sky_plugin_equal}
use embedded_client.Plugins.ApWorst.{ap_remove_worst}
use embedded_client.Beacons.Add.{add_beacon}
use embedded_client.Mac.Similar.{AreBytes, nibble_diffs, mac_similar_iff}
use embedded_client.Tests.Samples.{
  empty_request, small_request, sample_config, full_request, sample_mac, sample_ap, sample_lte,
  sample_session, sample_request, sample_time,
}
use embedded_client.Validate.{validate_beacon, lte_bad}
use embedded_client.Mac.{mac_similar, local_admin}
use embedded_client.Plugins.ApWorst.Bounds.{Trims, ap_remove_worst-Trims}
use embedded_client.Beacons.Add.Valid.{Adds, add_beacon-Adds}
use embedded_client.Beacons.Remove.{ApsFirst, remove_beacon, Removed, remove_beacon-Removed}
use embedded_client.Beacons.Add.Limits.{Fits, Sane, Filtered, sky_plugin_remove_worst-Filtered}
use embedded_client.Beacons.Insert.Order.{IsValid, Inserts, basic_plugins, insert_beacon-Inserts}
use embedded_client.Api.Sequences.{add_ap, add_lte_neighbor, Stays, Call, calls, calls-Stays}
use embedded_client.Types.{success, error_none, Session, Rctx, CacheLine, empty_slot, no_fix}
use embedded_client.Common.{
  ℕ, inl, true, false, pos, refl, [], ◌∷◌, List, ◌<◌, arith, neg, ◌≡◌, ◌≢◌, ◌↔◌, ◌≤◌, Bool, ◌-◌,
  replicate, ◌-ℤ◌, to_i32,
}

empty-IsValid : IsValid empty_request
empty-IsValid = record { registered = refl; ordered = refl; slots = refl }

empty-Fits : Fits empty_request
empty-Fits = (omega arith, omega arith)

small-ApsFirst : ApsFirst 2 small_request.beacon
small-ApsFirst = (refl, (refl, (refl, refl)))

pub small-IsValid : IsValid small_request
small-IsValid = record { registered = refl; ordered = small-ApsFirst; slots = refl }

small-Fits : Fits small_request
small-Fits = (omega arith, omega arith)

sample-Sane : Sane sample_config
sample-Sane = (omega arith, omega arith)

abbrev sample_calls : List Call
sample_calls =
    add_ap (sample_mac 1) (pos 1699999990) (neg 60) (pos 3660) false
    ∷ add_lte_neighbor (pos 5) (pos 1000) (pos 1699999990) (neg 90)
    ∷ []

calls-Stays_example : Stays empty_request (calls sample_calls empty_request error_none)
calls-Stays_example =
    calls-Stays sample_calls empty_request error_none empty-IsValid empty-Fits sample-Sane

add_beacon-Adds_example :
    Adds small_request (add_beacon small_request error_none (sample_ap 3 (neg 50)) (pos 1699999990))
add_beacon-Adds_example =
    add_beacon-Adds small_request error_none (sample_ap 3 (neg 50)) (pos 1699999990) small-IsValid
      small-Fits sample-Sane

insert_beacon-Inserts_example :
    Inserts small_request
      (sample_ap 3 (neg 50))
      (insert_beacon small_request error_none (sample_ap 3 (neg 50)))
insert_beacon-Inserts_example =
    insert_beacon-Inserts small_request (sample_ap 3 (neg 50)) small-IsValid (omega arith)
      error_none (inl refl)

remove_beacon-Removed_example :
    ((remove_beacon small_request 1).1 ≡ success)
    × Removed small_request (remove_beacon small_request 1).0
    × ((remove_beacon small_request 1).0.num_ap ≡ 1)
remove_beacon-Removed_example = remove_beacon-Removed small_request 1 small-ApsFirst (omega arith)

ap_remove_worst-Trims_example : Trims full_request (ap_remove_worst full_request)
ap_remove_worst-Trims_example = ap_remove_worst-Trims full_request (refl, (refl, (refl, refl)))

sky_plugin_remove_worst-Filtered_example :
    Filtered full_request (sky_plugin_remove_worst basic_plugins full_request)
sky_plugin_remove_worst-Filtered_example =
    sky_plugin_remove_worst-Filtered full_request (refl, (refl, (refl, refl)))
      (omega arith, omega arith) (omega arith, inl (refl, omega arith))

mac_similar_iff_example : (mac_similar (sample_mac 0x10) (sample_mac 0x80) ≢ pos 0) ↔ (
    (nibble_diffs (sample_mac 0x10) (sample_mac 0x80) ≤ 1)
    × (local_admin (sample_mac 0x10) ≡ local_admin (sample_mac 0x80)))
mac_similar_iff_example = mac_similar_iff (sample_mac 0x10) (sample_mac 0x80)

sample_mac-AreBytes : (n : ℕ) → n < 256 → AreBytes (sample_mac n)
sample_mac-AreBytes n h =
    (omega arith, (omega arith, (omega arith, (omega arith, (omega arith, (h, tt))))))

validate_beacon_again_example : validate_beacon sample_lte ≡ (true, sample_lte)
unfolding validate_beacon lte_bad
validate_beacon_again_example = validate_beacon_again sample_lte sample_lte refl

-- A session that has the cell of the request in its cache.
abbrev known_session : Session
known_session = record sample_session {
  cacheline =
      record {
        num_ap = 0;
        time = sample_time - 60;
        beacon = sample_lte ∷ [];
        spare = replicate 27 empty_slot;
        gnss = no_fix;
      }
      ∷ [];
}

abbrev known_request : Rctx
known_request = sample_request known_session 0 (sample_lte ∷ [])

abbrev no_gnss : Rctx → CacheLine → Bool
no_gnss r cl = false

known_hit :
    ((cell_match no_gnss known_request).1 ≡ success)
    × ((cell_match no_gnss known_request).0.hit ≡ true)
unfolding cell_match best_match match_loop comparable serving_cell_changed full_score score_cells
    note expire conclude_match first_empty beacon_in_cacheline search_cacheline sky_plugin_equal
    ap_equal cell_equal ◌-ℤ◌ to_i32
known_hit = (refl, refl)

cell_match-HitIn_example : HitIn no_gnss known_request (cell_match no_gnss known_request).0
cell_match-HitIn_example = cell_match-HitIn no_gnss known_request (known_hit.0) (known_hit.1)
