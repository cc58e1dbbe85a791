-- ===== src/Beacons/Search/Stale.antt =====
-- libel/libel.c: a second search of a request whose first search was a hit.
use embedded_client.Float.{lt, mul, of_int, float_of}
use embedded_client.Beacons.Insert.Order.{basic_plugins}
use embedded_client.Validate.Beacons.{validate_request_ctx}
use embedded_client.Plugins.CellMatch.{comparable, expired}
use embedded_client.Plugins.ApMatch.{
  ap_match, ap_match_loop, ap_start, above, best_ap_match, ApBest, conclude_ap,
}
use embedded_client.Beacons.Search.{
  from_cacheline, searched, sky_search_cache, search_cache, sky_plugin_match_cache,
}
use embedded_client.Common.{
  refl, [], true, false, pos, ◌∷◌, ◌≤◌, ◌<◌, Bool, List, ℕ, ◌≡◌, ◌+◌, arith, length,
}
use embedded_client.Types.{error_none, success, Rctx, CacheLine, timestamp_2019_03_01}

module _ (gnss_worse : Rctx → CacheLine → Bool) where
  -- No cacheline may be compared with the request.
  abbrev pub NoneComparable : Rctx → List CacheLine → Type 0
  NoneComparable r [] = Unit {0}
  NoneComparable r (cl ∷ cls) = (comparable gnss_worse r cl ≡ false) × NoneComparable r cls

  ap_match_loop-none :
      (r : Rctx) (cls : List CacheLine) (i : ℕ) (s : ApBest)
      → NoneComparable r cls
      → ap_match_loop gnss_worse r cls i s ≡ s
  unfolding ap_match_loop
  ap_match_loop-none r [] i s none_left = refl
  ap_match_loop-none r (cl ∷ cls) i s (no_cl, none_left) =
      rw no_cl (ap_match_loop-none r cls (i + 1) s none_left)

  start-above :
      (lines : List CacheLine)
      → above (ap_start lines).bestratio (ap_start lines).bestthresh ≡ false
  unfolding ap_start above lt mul of_int float_of
  start-above lines = refl

  ap_match-stale :
      (r : Rctx)
      → r.hit ≡ true
      → 0 < r.num_ap
      → NoneComparable (expired r) (expired r).session.cacheline
      → ((ap_match gnss_worse r).1 ≡ success)
        × ((ap_match gnss_worse r).0.hit ≡ true)
        × ((ap_match gnss_worse r).0.get_from ≡ pos 0)
  unfolding ap_match best_ap_match conclude_ap
  ap_match-stale r hit some_ap none_left =
      let lines = (expired r).session.cacheline in
      ground (
        arith,
        ap_match_loop-none (expired r) lines 0 (ap_start lines) none_left,
        start-above lines,
      )

  -- A valid request with APs that already has a hit, of a session with the basic plugins and a cache,
  -- and at a known time: if no cacheline may be compared with it any more, the search still answers
  -- that it is a hit, and gives the location of the first cacheline.
  pub sky_search_cache-stale :
      (r : Rctx)
      → validate_request_ctx r ≡ (true, r)
      → r.session.plugins ≡ basic_plugins
      → 0 < length r.session.cacheline
      → timestamp_2019_03_01 ≤ r.header.time
      → r.hit ≡ true
      → 0 < r.num_ap
      → NoneComparable (expired r) (expired r).session.cacheline
      → (q : Rctx) × (sky_search_cache gnss_worse r true
          ≡ searched q error_none true (from_cacheline (pos 0)))
  unfolding sky_search_cache search_cache sky_plugin_match_cache
  sky_search_cache-stale r valid basic cache time hit some_ap none_left =
      let stale = ap_match-stale r hit some_ap none_left in
      ((ap_match gnss_worse r).0, ground (arith, valid, basic, stale))
