-- ===== src/Plugins/ApMatch.antt =====
-- plugins/ap_plugin_basic.c: `match`. The comparison of the GNSS fixes is a parameter.
pub mod Counts
pub mod Hits
pub mod Same
pub mod Complete
use embedded_client.Mac.{mac_similar}
use embedded_client.Plugins.CellMatch.{index_of, comparable, expired}
use embedded_client.Float.{fin, Float, of_int, lt, mul, div, float_of}
use embedded_client.Types.{
  success, error, Rctx, Beacon, CacheLine, max_ap_beacons_max, Status, empty_slot, cache_empty,
}
use embedded_client.Common.{
  ℕ, none, false, pos, true, some, [], zero, suc, ◌∷◌, List, Option, replicate, if◌then◌else◌, Bool,
  ◌+◌, get_or, ◌==◌, not, ◌-◌, leb, ◌&&◌, set, eqb_ℤ, ℤ, to_i32,
}

-- The inner loop of `count_cached_aps_in_request_ctx`: of the `n` APs of the cacheline from index `i`
-- on, the first that is similar to `mac` and not matched yet.
unfoldable pub find_match : List ℕ → List Beacon → List Bool → ℕ → ℕ → Option ℕ
find_match mac cached matched zero i = none
find_match mac cached matched (suc n) i =
    let rest = find_match mac cached matched n (i + 1) in
    if not (get_or matched i false)
      && not (eqb_ℤ (mac_similar mac (get_or cached i empty_slot).ap.mac) (pos 0))
    then some i
    else rest

-- The outer loop: `n` rounds from index `j` on.
unfoldable pub count_loop : List Beacon → CacheLine → ℕ → ℕ → List Bool → ℕ → ℕ
count_loop bs cl zero j matched num = num
count_loop bs cl (suc n) j matched num =
    elim (find_match (get_or bs j empty_slot).ap.mac cl.beacon matched cl.num_ap 0) [
      | none ↦ count_loop bs cl n (j + 1) matched num
      | some i ↦ count_loop bs cl n (j + 1) (set matched i true) (num + 1)
    ]

-- The flags are an array of MAX_AP_BEACONS. For a cacheline with more APs, or below a request with
-- more, the source runs past the end of it; the model says nothing of these.
unfoldable pub count_cached_aps_in_request_ctx : Rctx → CacheLine → ℕ
count_cached_aps_in_request_ctx r cl =
    count_loop r.beacon cl r.num_ap 0 (replicate max_ap_beacons_max false) 0

-- The inner loop of `count_uniq_vg`: `n` rounds from index `j` on mark the APs similar to `mac`.
unfoldable pub mark_redundant : List ℕ → List Beacon → ℕ → ℕ → List Bool → List Bool
mark_redundant mac bs zero j redundant = redundant
mark_redundant mac bs (suc n) j redundant = mark_redundant mac bs n (j + 1) (
    if not (get_or redundant j false)
      && not (eqb_ℤ (mac_similar mac (get_or bs j empty_slot).ap.mac) (pos 0))
    then set redundant j true
    else redundant)

-- The outer loop: `n` rounds from index `i` on, so that `n - 1` APs follow the one at `i`.
unfoldable pub uniq_loop : List Beacon → ℕ → ℕ → List Bool → ℕ → ℕ
uniq_loop bs zero i redundant num = num
uniq_loop bs (suc n) i redundant num = elim (get_or redundant i false) [
  | true ↦ uniq_loop bs n (i + 1) redundant num
  | false ↦
      uniq_loop bs n (i + 1) (mark_redundant (get_or bs i empty_slot).ap.mac bs n (i + 1) redundant)
        (num + 1)
]

unfoldable pub count_uniq_vg : Rctx → ℕ
count_uniq_vg r = uniq_loop r.beacon r.num_ap 0 (replicate max_ap_beacons_max false) 0

-- The index of the last empty cacheline from `i` on.
unfoldable pub last_empty : List CacheLine → ℕ → Option ℕ → Option ℕ
last_empty [] i found = found
last_empty (cl ∷ cls) i found =
    last_empty cls (i + 1) (if cl.time == cache_empty then some i else found)

-- The variables of the loop; `none` is -1.
pub record ApBest : Type 0 where
  pub bestc : Option ℕ
  pub bestratio : Float
  pub bestthresh : ℤ
  pub bestput : Option ℕ
  pub bestputratio : Float

-- The loop's variables at its start.
unfoldable pub ap_start : List CacheLine → ApBest
ap_start lines =
    let put = last_empty lines 0 none in
    record {
      bestc = none;
      bestratio = fin (pos 0);
      bestthresh = pos 0;
      bestput = put;
      bestputratio = elim put [ none ↦ of_int (pos 1) | some _ ↦ fin (pos 0) ];
    }

-- The number of APs that the request and the cacheline share, over the size of their union.
unfoldable pub ratio_of : Rctx → CacheLine → Float
ratio_of r cl =
    let score = count_cached_aps_in_request_ctx r cl in
    let union_ab = r.num_ap + cl.num_ap - score in
    if cl.num_ap == 0 then fin (pos 0) else div (of_int (pos score)) (of_int (pos union_ab))

-- The `int` that the ratio is compared with: a setting from 2^31 on is a negative threshold.
unfoldable pub threshold_of : Rctx → CacheLine → ℤ
threshold_of r cl =
    if cl.num_ap == 0
    then pos 0
    else if leb (count_uniq_vg r) r.session.config.cache_beacon_threshold
    then pos 99
    else to_i32 r.session.config.cache_match_all_threshold

-- A worse ratio is noted as the place to save to, and a better one as the match.
unfoldable pub note_ratio : ℕ → ℤ → Float → ApBest → ApBest
note_ratio i threshold ratio s =
    let s1 =
      if lt ratio s.bestputratio then record s { bestput = some i; bestputratio = ratio } else s in
    if lt s1.bestratio ratio
    then record s1 { bestc = some i; bestratio = ratio; bestthresh = threshold }
    else s1

-- `(bestratio * 100) > (float)bestthresh`
unfoldable pub above : Float → ℤ → Bool
above ratio threshold = lt (float_of threshold) (mul ratio (of_int (pos 100)))

-- What the loop has found goes into the request. Without a match, `get_from` becomes `false`, and
-- `hit` stays.
unfoldable pub conclude_ap : Rctx → ApBest → Rctx
conclude_ap r s =
    if above s.bestratio s.bestthresh
    then record r { save_to = index_of s.bestput; get_from = index_of s.bestc; hit = true }
    else record r { save_to = index_of s.bestput; get_from = pos 0 }

module _ (cached_gnss_worse : Rctx → CacheLine → Bool) where
  -- The loop over the cachelines from index `i` on.
  unfoldable pub ap_match_loop : Rctx → List CacheLine → ℕ → ApBest → ApBest
  ap_match_loop r [] i s = s
  ap_match_loop r (cl ∷ cls) i s = ap_match_loop r cls (i + 1) (
      if comparable cached_gnss_worse r cl
      then note_ratio i (threshold_of r cl) (ratio_of r cl) s
      else s)

  -- The search of the expired cachelines.
  unfoldable pub best_ap_match : Rctx → ApBest
  best_ap_match r = ap_match_loop r r.session.cacheline 0 (ap_start r.session.cacheline)

  -- The request with its old cachelines marked empty is that of `match` of the cell plugin.
  unfoldable pub ap_match : Rctx → Rctx × Status
  ap_match r =
      if r.num_ap == 0
      then (expired r, error)
      else (conclude_ap (expired r) (best_ap_match (expired r)), success)
