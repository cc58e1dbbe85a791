-- ===== src/Beacons/Search.antt =====
-- libel/plugin.c: `sky_plugin_match_cache`; libel/beacons.c: `search_cache`; libel/libel.c:
-- `sky_search_cache` and `sky_ignore_cache_hit`. The comparison of the GNSS fixes is a parameter.
pub mod Hits
pub mod Stale
use embedded_client.Plugins.CellMatch.{cell_match}
use embedded_client.Plugins.ApMatch.{ap_match}
use embedded_client.Plugins.Chain.{act}
use embedded_client.Validate.Beacons.{validate_request_ctx}
use embedded_client.Types.{
  ap_plugin_basic, error, error_bad_request_ctx, success, error_none, cell_plugin_basic, Rctx,
  CacheLine, Errno, Plugin, Status, timestamp_2019_03_01,
}
use embedded_client.Common.{
  ℕ, negsuc, false, true, some, [], ◌∷◌, ◌&&◌, ◌||◌, if◌then◌else◌, ℤ, Bool, not, List, ltb, Option,
  eqb_ℤ, length,
}

-- The entry `cache_match` of a plugin's table.
abbrev pub cache_match_of : (Rctx → CacheLine → Bool) → Plugin → Option (Rctx → Rctx × Status)
cache_match_of gnss_worse ap_plugin_basic = some (ap_match gnss_worse)
cache_match_of gnss_worse cell_plugin_basic = some (cell_match gnss_worse)

-- `IS_CACHE_HIT`
abbrev pub is_cache_hit : Rctx → Bool
is_cache_hit r = not (eqb_ℤ r.get_from (negsuc 0)) && r.hit

-- What `loc` is left as: `unwritten` where it is NULL.
pub data Loc : Type 0 where
  unwritten unable_to_locate : Loc
  from_cacheline : ℤ → Loc

-- The outcome of `sky_search_cache`: the request, the code and `*cache_hit`.
pub data Searched : Type 0 where
  null_dereference : Searched
  bad_request : Rctx → Errno → Searched
  searched : Rctx → Errno → Bool → Loc → Searched

unfoldable pub missed : Rctx → Rctx
missed r = record r { hit = false; session = record (r.session) { cache_hits = 0 } }

unfoldable pub sky_ignore_cache_hit : Rctx → Rctx × Errno × Status
sky_ignore_cache_hit r =
    let (ok, r1) = validate_request_ctx r in
    if not ok
    then (r1, error_bad_request_ctx, error)
    else (if is_cache_hit r1 then record r1 { hit = false } else r1, error_none, success)

module _ (gnss_worse : Rctx → CacheLine → Bool) where
  -- A plugin that fails leaves what it has changed.
  unfoldable pub sky_plugin_match_cache : List Plugin → Rctx → Rctx × Status
  sky_plugin_match_cache [] r = (r, error)
  sky_plugin_match_cache (p ∷ plugins) r =
      let (r', ret) = act (cache_match_of gnss_worse p) r in
      let rest = sky_plugin_match_cache plugins r' in
      elim ret [ success ↦ (r', success) | error ↦ rest ]

  unfoldable pub search_cache : Rctx → Rctx
  search_cache r =
      let (r', ret) = sky_plugin_match_cache r.session.plugins r in
      let no_match = λ (q : Rctx). record q { get_from = negsuc 0; hit = false } in
      if ltb (length r.session.cacheline) 1 || ltb r.header.time timestamp_2019_03_01
      then no_match r
      else elim ret [ success ↦ r' | error ↦ no_match r' ]

  -- The test for NULL is missing where the search has failed.
  unfoldable pub sky_search_cache : Rctx → Bool → Searched
  sky_search_cache r loc_given =
      let (ok, r1) = validate_request_ctx r in
      let r2 = search_cache r1 in
      if not ok
      then bad_request r1 error_bad_request_ctx
      else if is_cache_hit r2
      then searched r2 error_none true (if loc_given then from_cacheline r2.get_from else unwritten)
      else if loc_given
      then searched (missed r2) error_none false unable_to_locate
      else null_dereference
