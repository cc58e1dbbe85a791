-- ===== src/Tests/Searches.antt =====
-- Searches of the cache.
use embedded_client.Float.{float_of, of_int, div, mul, lt}
use embedded_client.Mac.{mac_similar}
use embedded_client.Validate.{validate_beacon}
use embedded_client.Session.Requests.{request_header-valid}
use embedded_client.Beacons.Cache.{serving_cell_changed}
use embedded_client.Beacons.Search.Stale.{sky_search_cache-stale, NoneComparable}
use embedded_client.Plugins.ApMatch.Complete.{WithinTables, ap_match-hit}
use embedded_client.Tests.Samples.{sample_time, sample_session, sample_request, sample_ap}
use embedded_client.Validate.Beacons.{validate_request_ctx, validate_slots}
use embedded_client.Beacons.Search.Hits.{Answers, sky_search_cache-Answers}
use embedded_client.Plugins.CellMatch.{expire, comparable, expired}
use embedded_client.Plugins.ApMatch.Hits.{BestIn, WithinArrays, ap_match-BestIn}
use embedded_client.Plugins.ApMatch.{
  ap_match, ap_start, last_empty, best_ap_match, ap_match_loop, note_ratio, ratio_of, threshold_of,
  count_cached_aps_in_request_ctx, count_loop, find_match, count_uniq_vg, uniq_loop, mark_redundant,
  above, conclude_ap,
}
use embedded_client.Beacons.Search.{from_cacheline, searched, sky_search_cache}
use embedded_client.Common.{
  refl, false, [], true, pos, ◌∷◌, ◌≤◌, ◌-◌, List, Bool, replicate, ◌≡◌, neg, arith, some, zero,
  suc, ◌-ℤ◌, ℕ, get_elem?, to_i32,
}
use embedded_client.Types.{
  success, error_none, Rctx, CacheLine, Session, Beacon, empty_slot, max_ap_beacons_max, no_fix,
}

abbrev no_gnss : Rctx → CacheLine → Bool
no_gnss r cl = false

-- Three APs, saved a minute ago.
abbrev saved_aps : List Beacon
saved_aps = sample_ap 0x10 (neg 60) ∷ sample_ap 0x80 (neg 70) ∷ sample_ap 0xF3 (neg 75) ∷ []

abbrev saved_line : CacheLine
saved_line = record {
  num_ap = 3;
  time = sample_time - 60;
  beacon = saved_aps;
  spare = replicate 25 empty_slot;
  gnss = no_fix;
}

abbrev empty_line : CacheLine
empty_line = record {
  num_ap = 0;
  time = 0;
  beacon = [];
  spare = replicate 28 empty_slot;
  gnss = no_fix;
}

abbrev saved_session : Session
saved_session = record sample_session { cacheline = empty_line ∷ saved_line ∷ [] }

-- The same APs again.
abbrev again_request : Rctx
again_request = sample_request saved_session 3 saved_aps

-- Neither cacheline expires.
again_line : get_elem? (expired again_request).session.cacheline 1 ≡ some saved_line
unfolding expire ◌-ℤ◌
again_line = refl

small_lines :
    (i : ℕ) (cl : CacheLine)
    → get_elem? saved_session.cacheline i ≡ some cl
    → cl.num_ap ≤ max_ap_beacons_max
small_lines zero cl e = ground arith
small_lines (suc zero) cl e = ground arith
small_lines (suc (suc i)) cl e = absurd (cc)

again_arrays : WithinArrays again_request
again_arrays = (omega arith, small_lines)

again_within : WithinTables no_gnss again_request
unfolding expire ◌-ℤ◌
again_within = (omega arith, omega arith, omega arith, small_lines)

again_comparable : comparable no_gnss (expired again_request) saved_line ≡ true
unfolding comparable serving_cell_changed
again_comparable = refl

again_hit :
    ((ap_match no_gnss again_request).0.hit ≡ true) × ((ap_match no_gnss again_request).1 ≡ success)
again_hit =
    ap_match-hit no_gnss again_request 1 saved_line again_within again_line again_comparable
      (refl, λ i lt. refl)

ap_match-hit_example :
    ((ap_match no_gnss again_request).0.hit ≡ true) × ((ap_match no_gnss again_request).1 ≡ success)
ap_match-hit_example =
    ap_match-hit no_gnss again_request 1 saved_line again_within again_line again_comparable
      (refl, λ i lt. refl)

ap_match-BestIn_example : BestIn no_gnss again_request (ap_match no_gnss again_request).0
ap_match-BestIn_example =
    ap_match-BestIn no_gnss again_request again_arrays refl again_hit.1 again_hit.0

sky_search_cache-Answers_example :
    Answers no_gnss again_request true (sky_search_cache no_gnss again_request true)
sky_search_cache-Answers_example =
    sky_search_cache-Answers no_gnss again_request true refl again_arrays refl

-- With a threshold of 2^32 - 1, the number -1, one common AP of five is enough for a hit.
abbrev other_request : Rctx
other_request =
    sample_request
      (record saved_session {
        config = record (saved_session.config) {
          cache_match_all_threshold = 0xFFFFFFFF;
          cache_beacon_threshold = 1;
        };
      })
      3 (sample_ap 0x10 (neg 60) ∷ sample_ap 0x34 (neg 61) ∷ sample_ap 0x56 (neg 62) ∷ [])

negative_threshold : (ap_match no_gnss other_request).0.hit ≡ true
unfolding ap_match expire ◌-ℤ◌ comparable serving_cell_changed to_i32 ap_start last_empty
    best_ap_match ap_match_loop note_ratio ratio_of threshold_of count_cached_aps_in_request_ctx
    count_loop find_match count_uniq_vg uniq_loop mark_redundant above conclude_ap mac_similar
    float_of of_int div mul lt
negative_threshold = refl

-- A request that had a hit, of a session whose cache is empty now.
abbrev stale_request : Rctx
stale_request = record again_request {
  hit = true;
  session = record saved_session { cacheline = empty_line ∷ [] };
}

stale_valid : validate_request_ctx stale_request ≡ (true, stale_request)
unfolding validate_request_ctx validate_slots validate_beacon
stale_valid = rw (request_header-valid 5000 sample_time) refl

stale_lines :
    NoneComparable no_gnss (expired stale_request) (expired stale_request).session.cacheline
unfolding comparable expire
stale_lines = (refl, tt)

sky_search_cache-stale_example :
    (q : Rctx) × (sky_search_cache no_gnss stale_request true
      ≡ searched q error_none true (from_cacheline (pos 0)))
sky_search_cache-stale_example =
    sky_search_cache-stale no_gnss stale_request stale_valid refl (omega arith) (omega arith) refl
      (omega arith) stale_lines
