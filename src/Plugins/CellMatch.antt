-- ===== src/Plugins/CellMatch.antt =====
-- plugins/cell_plugin_basic.c: `match`. The ratios are 0 or 1, and so Booleans. The comparison of the
-- GNSS fixes is a parameter.
pub mod Hits
use embedded_client.Plugins.Chain.{num_cells}
use embedded_client.Beacons.Cache.{beacon_in_cacheline, serving_cell_changed}
use embedded_client.Types.{
  success, error, Config, Rctx, CacheLine, Plugin, Beacon, Status, time_unavailable, cache_empty,
  seconds_in_hour, u32,
}
use embedded_client.Common.{
  ℕ, none, [], false, pos, true, some, negsuc, ◌∷◌, List, Option, Bool, if◌then◌else◌, not, ◌+◌,
  drop, ◌&&◌, ℤ, ltb, ◌==◌, map, ltb_ℤ, ◌*◌, ◌%◌, ◌-ℤ◌, to_i32,
}

-- A cacheline that is too old is marked empty.
unfoldable pub expire : Config → ℕ → CacheLine → CacheLine
expire c now cl =
    if not (cl.time == time_unavailable)
      && ltb_ℤ (pos (c.cache_age_threshold * seconds_in_hour % u32)) (pos now -ℤ pos cl.time)
    then record cl { time = cache_empty }
    else cl

-- The index of the first empty cacheline from `i` on.
unfoldable pub first_empty : List CacheLine → ℕ → Option ℕ
first_empty [] i = none
first_empty (cl ∷ cls) i =
    let rest = first_empty cls (i + 1) in if cl.time == cache_empty then some i else rest

-- The variables of the loop; `none` is -1.
pub record Best : Type 0 where
  pub bestc : Option ℕ
  pub bestratio : Bool
  pub bestthresh : ℤ
  pub bestput : Option ℕ
  pub bestputratio : Bool

-- The number of beacons that are in the cacheline.
unfoldable pub score_cells : List Plugin → List Beacon → CacheLine → ℕ
score_cells plugins [] cl = 0
score_cells plugins (b ∷ bs) cl =
    let rest = score_cells plugins bs cl in
    if (beacon_in_cacheline plugins b cl).0 then rest + 1 else rest

-- All cells of the request are in the cacheline.
unfoldable pub full_score : Rctx → CacheLine → Bool
full_score r cl = score_cells r.session.plugins (drop r.num_ap r.beacon) cl == num_cells r

-- The request with its old cachelines marked empty.
abbrev pub expired : Rctx → Rctx
expired r =
    let lines = map (expire r.session.config r.header.time) r.session.cacheline in
    record r { session = record (r.session) { cacheline = lines } }

-- A better ratio is noted.
unfoldable pub note : ℕ → ℤ → Bool → Best → Best
note i threshold ratio s =
    let s1 =
      if ratio && not s.bestputratio
      then record s { bestput = some i; bestputratio = ratio }
      else s in
    if ratio && not s1.bestratio
    then record s1 { bestc = some i; bestratio = ratio; bestthresh = threshold }
    else s1

-- The loop's variables at its start.
abbrev pub start : List CacheLine → Best
start lines =
    let put = first_empty lines 0 in
    record {
      bestc = none;
      bestratio = false;
      bestthresh = pos 0;
      bestput = put;
      bestputratio = elim put [ none ↦ false | some _ ↦ true ];
    }

abbrev pub index_of : Option ℕ → ℤ
index_of none = negsuc 0
index_of (some i) = pos i

-- What the loop has found goes into the request. As a `float`, a threshold is below 0 or 100 exactly
-- if it is as an `int`.
unfoldable pub conclude_match : Rctx → Best → Rctx
conclude_match r s = record r {
  save_to = index_of s.bestput;
  get_from = index_of s.bestc;
  hit = ltb_ℤ s.bestthresh (if s.bestratio then pos 100 else pos 0);
}

module _ (cached_gnss_worse : Rctx → CacheLine → Bool) where
  -- A cacheline that the request is compared with.
  unfoldable pub comparable : Rctx → CacheLine → Bool
  comparable r cl =
      not (cl.time == cache_empty)
      && not (serving_cell_changed r cl)
      && not (cached_gnss_worse r cl)

  -- The loop over the cachelines from index `i` on.
  unfoldable pub match_loop : Rctx → List CacheLine → ℕ → Best → Best
  match_loop r [] i s = s
  match_loop r (cl ∷ cls) i s =
      let noted = note i (to_i32 r.session.config.cache_match_all_threshold) (full_score r cl) s in
      match_loop r cls (i + 1) (if comparable r cl then noted else s)

  -- The search of the expired cachelines.
  unfoldable pub best_match : Rctx → Best
  best_match r = match_loop r r.session.cacheline 0 (start r.session.cacheline)

  unfoldable pub cell_match : Rctx → Rctx × Status
  cell_match r =
      if num_cells r == 0
      then (expired r, error)
      else (conclude_match (expired r) (best_match (expired r)), success)
