-- ===== src/Plugins/ApMatch/Complete.antt =====
-- plugins/ap_plugin_basic.c: a request that scans the APs of a cacheline again is a hit.
use embedded_client.Plugins.ApMatch.Hits.{Named, best-GoodAp}
use embedded_client.Types.{success}
use embedded_client.Plugins.ApMatch.Counts.{counts-bounds}
use embedded_client.Plugins.ApMatch.Same.{SameAps, count-same}
use embedded_client.Plugins.ApMatch.{
  above, ratio_of, threshold_of, Rctx, CacheLine, max_ap_beacons_max,
  count_cached_aps_in_request_ctx, ap_match, expired, conclude_ap, comparable, best_ap_match,
}
use embedded_client.Float.{div, of_int, lt, mul, fin, nan, eq, Float, float_of}
use embedded_client.Common.{
  pos, true, refl, ◌==◌, ◌||◌, if◌then◌else◌, ℕ, every_below, Bool, ltb, ◌≡◌, zero, suc, false, ◌≤◌,
  ◌<◌, ◌-◌, arith, every_below_at, ap, eqb_ℤ_iff, ◌+◌, [], none, some, ◌∷◌, List, get_elem?, Option,
  length, subst, sym, ℤ, to_i32, ◌≤ℤ◌, pos_part,
}

-- The ratio for `c` common APs in a union of `u`: below 1, or above every threshold that `match` uses.
abbrev ratio_ok : ℕ → ℕ → Bool
ratio_ok u c =
    let ratio = div (of_int (pos c)) (of_int (pos u)) in
    if ltb u c || (u == 0) || lt ratio (of_int (pos 1))
    then true
    else every_below (λ k. above ratio (pos k)) 100

ratios_table : every_below (λ u. every_below (ratio_ok u) 21) 41 ≡ true
unfolding every_below div of_int float_of lt above mul
ratios_table = refl

same_table :
    every_below (λ n. eq (div (of_int (pos (suc n))) (of_int (pos (suc n)))) (of_int (pos 1))) 20
    ≡ true
unfolding every_below div of_int eq
same_table = refl

eq-path : (a b : Float) → eq a b ≡ true → a ≡ b
unfolding eq
eq-path nan b h = absurd (cc)
eq-path (fin a) nan h = absurd (cc)
eq-path (fin a) (fin b) h = ap fin ((eqb_ℤ_iff a b).0 h)

one_of_same : (n : ℕ) → 0 < n → n ≤ 20 → div (of_int (pos n)) (of_int (pos n)) ≡ of_int (pos 1)
one_of_same zero lt le = absurd (omega arith)
one_of_same (suc n) lt le = eq-path _ _ (
    every_below_at
      (λ (k : ℕ). eq (div (of_int (pos (suc k))) (of_int (pos (suc k)))) (of_int (pos 1))) 20 n
      (omega arith) same_table)

ratio_of-same :
    (r : Rctx) (cl : CacheLine)
    → 0 < r.num_ap
    → cl.num_ap ≤ max_ap_beacons_max
    → SameAps r cl
    → ratio_of r cl ≡ of_int (pos 1)
unfolding ratio_of
ratio_of-same r cl some_ap fits same =
    let union_ab : r.num_ap + cl.num_ap - count_cached_aps_in_request_ctx r cl ≡ r.num_ap =
      omega (arith, count-same r cl fits same, same.0) in
    rw (union_ab, count-same r cl fits same) (ground (arith, one_of_same r.num_ap some_ap, same.0))

zero_lt_one : lt (fin (pos 0)) (of_int (pos 1)) ≡ true
unfolding lt of_int
zero_lt_one = refl

-- A threshold from 0 to 99.
abbrev BelowHundred : ℤ → Type 0
BelowHundred threshold = (pos 0 ≤ℤ threshold) × (threshold ≤ℤ pos 99)

threshold_of-lt :
    (r : Rctx) (cl : CacheLine)
    → r.session.config.cache_match_all_threshold < 100
    → BelowHundred (threshold_of r cl)
unfolding threshold_of to_i32
threshold_of-lt r cl small = ground arith

-- A ratio that is not below 1 is above every threshold.
ratio_of-above :
    (r : Rctx) (cl : CacheLine) (threshold : ℤ)
    → r.num_ap ≤ max_ap_beacons_max
    → cl.num_ap ≤ max_ap_beacons_max
    → BelowHundred threshold
    → lt (ratio_of r cl) (of_int (pos 1)) ≡ false
    → above (ratio_of r cl) threshold ≡ true
unfolding ratio_of
ratio_of-above r cl threshold few fits small high =
    let c = count_cached_aps_in_request_ctx r cl in
    let u = r.num_ap + cl.num_ap - c in
    let row =
      every_below_at (λ (n : ℕ). every_below (ratio_ok n) 21) 41 u (omega arith) ratios_table in
    let bounds = counts-bounds r cl fits in
    let entry = every_below_at (ratio_ok u) 21 c (omega arith) row in
    ground (
      arith,
      entry,
      bounds,
      zero_lt_one,
      every_below_at (λ (k : ℕ). above (div (of_int (pos c)) (of_int (pos u))) (pos k)) 100
          (pos_part threshold),
    )

get_elem?-lt :
    (lines : List CacheLine) (i : ℕ) (cl : CacheLine)
    → get_elem? lines i ≡ some cl
    → i < length lines
get_elem?-lt [] i cl e = absurd (cc)
get_elem?-lt (x ∷ lines) zero cl e = omega arith
get_elem?-lt (x ∷ lines) (suc i) cl e = omega (arith, get_elem?-lt lines i cl e)

module _ (gnss_worse : Rctx → CacheLine → Bool) (r : Rctx) where
  -- A request with APs, thresholds below 100, and no array of more than MAX_AP_BEACONS APs.
  abbrev pub WithinTables : Type 0
  WithinTables =
      (0 < r.num_ap)
      × (r.num_ap ≤ max_ap_beacons_max)
      × (r.session.config.cache_match_all_threshold < 100)
      × ((i : ℕ) (cl : CacheLine)
          → get_elem? (expired r).session.cacheline i ≡ some cl
          → cl.num_ap ≤ max_ap_beacons_max)

  Named-above :
      (chosen : Option ℕ) (ratio : Float) (threshold : ℤ)
      → WithinTables
      → Named gnss_worse (expired r) (expired r).session.cacheline chosen ratio threshold
      → lt ratio (of_int (pos 1)) ≡ false
      → above ratio threshold ≡ true
  Named-above none ratio threshold within named high =
      let low : lt ratio (of_int (pos 1)) ≡ true = rw (named.0) zero_lt_one in absurd (cc)
  Named-above (some i) ratio threshold within (cl, e, c, same_ratio, same_threshold) high =
      rw (same_ratio, same_threshold)
        (ratio_of-above (expired r) cl (threshold_of (expired r) cl) within.1 (within.3 i cl e)
          (threshold_of-lt (expired r) cl within.2)
          (subst (λ (x : Float). lt x (of_int (pos 1)) ≡ false) same_ratio high))

  -- A request with APs, with thresholds below 100 and no array of more than MAX_AP_BEACONS APs: if a
  -- cacheline that has not expired, and does not differ in the serving cell or in a better fix, holds
  -- the same APs in the same order, the search among the APs succeeds with a hit.
  pub ap_match-hit :
      (i : ℕ) (cl : CacheLine)
      → WithinTables
      → get_elem? (expired r).session.cacheline i ≡ some cl
      → comparable gnss_worse (expired r) cl ≡ true
      → SameAps r cl
      → ((ap_match gnss_worse r).0.hit ≡ true) × ((ap_match gnss_worse r).1 ≡ success)
  unfolding ap_match conclude_ap
  ap_match-hit i cl within e c same =
      let lines = (expired r).session.cacheline in
      let b = best_ap_match gnss_worse (expired r) in
      let g = best-GoodAp gnss_worse r in
      let one = ratio_of-same (expired r) cl within.0 (within.3 i cl e) same in
      let high : lt b.bestratio (of_int (pos 1)) ≡ false =
        rw (sym one) (g.1 i cl (get_elem?-lt lines i cl e) e c) in
      let enough = Named-above b.bestc b.bestratio b.bestthresh within g.0 high in
      ground (arith, enough, within.0)
