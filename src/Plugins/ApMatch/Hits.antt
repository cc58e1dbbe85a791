-- ===== src/Plugins/ApMatch/Hits.antt =====
-- plugins/ap_plugin_basic.c: what a hit of `match` means.
use embedded_client.Plugins.ApMatch.Counts.{counts-bounds}
use embedded_client.Plugins.CellMatch.{expire}
use mathlib.Core.Option.{some-injective}
use embedded_client.Types.{Rctx, success, Session, max_ap_beacons_max, Config}
use embedded_client.Plugins.ApMatch.{
  above, note_ratio, CacheLine, ApBest, comparable, ratio_of, threshold_of, ap_match_loop, index_of,
  expired, ap_match, conclude_ap, best_ap_match, ap_start, Status, count_cached_aps_in_request_ctx,
}
use embedded_client.Common.{
  if◌then◌else◌, pos, true, refl, some, inr, inl, none, false, ℕ, ◌≡◌, Bool, arith, ◌⊎◌, List,
  get_elem?, Option, ◌<◌, ◌+◌, dec_lt, [], suc, ◌∷◌, subst, length, sym, ◌∙◌, ap, ℤ, add_zero,
  zero_add, shift, zero, ◌≤◌, map,
}
use embedded_client.Float.{fin, nan, lt, Float, mul, of_int, float_of}

lt-false : (a b c : Float) → lt a b ≡ true → lt a c ≡ false → lt b c ≡ false
unfolding lt
lt-false nan b c ab ac = cc
lt-false (fin a) nan c ab ac = refl
lt-false (fin a) (fin b) nan ab ac = refl
lt-false (fin a) (fin b) (fin c) ab ac = ground arith

lt_irrefl : (a : Float) → lt a a ≡ false
unfolding lt
lt_irrefl nan = refl
lt_irrefl (fin a) = ground arith

no_match : above (fin (pos 0)) (pos 0) ≡ false
unfolding above lt mul of_int float_of
no_match = refl

note_ratio-cases :
    (i : ℕ) (threshold : ℤ) (ratio : Float) (s : ApBest)
    → let s' = note_ratio i threshold ratio s in
      ((lt s.bestratio ratio ≡ false)
        × (s'.bestc ≡ s.bestc)
        × (s'.bestratio ≡ s.bestratio)
        × (s'.bestthresh ≡ s.bestthresh))
      ⊎ ((lt s.bestratio ratio ≡ true)
          × (s'.bestc ≡ some i)
          × (s'.bestratio ≡ ratio)
          × (s'.bestthresh ≡ threshold))
unfolding note_ratio
note_ratio-cases i threshold ratio s = ground arith

module _ (gnss_worse : Rctx → CacheLine → Bool) (r : Rctx) (lines : List CacheLine) where
  -- The cacheline at `i` is comparable, and has the ratio and the threshold given.
  abbrev pub ScoredAt : ℕ → Float → ℤ → Type 0
  ScoredAt i ratio threshold =
      (cl : CacheLine) × (get_elem? lines i ≡ some cl)
      × (comparable gnss_worse r cl ≡ true)
      × (ratio ≡ ratio_of r cl)
      × (threshold ≡ threshold_of r cl)

  abbrev pub Named : Option ℕ → Float → ℤ → Type 0
  Named none ratio threshold = (ratio ≡ fin (pos 0)) × (threshold ≡ pos 0)
  Named (some i) ratio threshold = ScoredAt i ratio threshold

  -- No comparable cacheline below `i` has a greater ratio.
  abbrev pub Greatest : ℕ → Float → Type 0
  Greatest i ratio =
      (k : ℕ) (cl : CacheLine)
      → k < i
      → get_elem? lines k ≡ some cl
      → comparable gnss_worse r cl ≡ true
      → lt ratio (ratio_of r cl) ≡ false

  abbrev pub GoodAp : ℕ → ApBest → Type 0
  GoodAp i s = Named s.bestc s.bestratio s.bestthresh × Greatest i s.bestratio

  -- The cacheline at `i` joins those that have been looked at.
  Greatest-suc :
      (i : ℕ) (cl : CacheLine) (ratio : Float)
      → get_elem? lines i ≡ some cl
      → Greatest i ratio
      → (comparable gnss_worse r cl ≡ true → lt ratio (ratio_of r cl) ≡ false)
      → Greatest (i + 1) ratio
  Greatest-suc i cl ratio here below at k other small e c = elim (dec_lt k i) [
    | yes lt' ↦ below k other lt' e c
    | no ge ↦
        let at_i : k ≡ i = omega arith in
        let same : cl ≡ other = cc in
        subst
          (λ (x : CacheLine). comparable gnss_worse r x ≡ true → lt ratio (ratio_of r x) ≡ false)
          same at c
  ]

  note_ratio-GoodAp :
      (i : ℕ) (cl : CacheLine) (s : ApBest)
      → get_elem? lines i ≡ some cl
      → comparable gnss_worse r cl ≡ true
      → GoodAp i s
      → GoodAp (i + 1) (note_ratio i (threshold_of r cl) (ratio_of r cl) s)
  note_ratio-GoodAp i cl s e c g = elim (note_ratio-cases i (threshold_of r cl) (ratio_of r cl) s) [
    | inl same ↦
        rw (same.1, same.2, same.3) (g.0, Greatest-suc i cl s.bestratio e g.1 (λ _. same.0))
    | inr found ↦
        rw (found.1, found.2, found.3)
          (
            (cl, e, c, refl, refl),
            Greatest-suc i cl (ratio_of r cl) e
                (λ k other small at c'.
                  lt-false s.bestratio (ratio_of r cl) (ratio_of r other) found.0
                    (g.1 k other small at c'))
                (λ _. lt_irrefl (ratio_of r cl)),
          )
  ]

  pass-GoodAp :
      (i : ℕ) (cl : CacheLine) (s : ApBest)
      → get_elem? lines i ≡ some cl
      → GoodAp i s
      → (c : Bool) → comparable gnss_worse r cl ≡ c
      → GoodAp (i + 1) (if c then note_ratio i (threshold_of r cl) (ratio_of r cl) s else s)
  pass-GoodAp i cl s e g true c = note_ratio-GoodAp i cl s e c g
  pass-GoodAp i cl s e g false c = (g.0, Greatest-suc i cl s.bestratio e g.1 (λ c'. absurd (cc)))

  ap_match_loop-GoodAp :
      (cls : List CacheLine) (i : ℕ) (s : ApBest)
      → ((k : ℕ) → get_elem? cls k ≡ get_elem? lines (i + k))
      → GoodAp i s
      → GoodAp (i + length cls) (ap_match_loop gnss_worse r cls i s)
  unfolding ap_match_loop
  ap_match_loop-GoodAp [] i s at g = rw (sym (add_zero i)) g
  ap_match_loop-GoodAp (cl ∷ cls) i s at g =
      let here : get_elem? lines i ≡ some cl = rw (add_zero i) (sym (at 0)) in
      let next : (k : ℕ) → get_elem? cls k ≡ get_elem? lines (i + 1 + k) =
        λ k. at (suc k) ∙ ap (λ (n : ℕ). get_elem? lines n) (shift i k) in
      let s' =
        if comparable gnss_worse r cl
        then note_ratio i (threshold_of r cl) (ratio_of r cl) s
        else s in
      subst (λ (n : ℕ). GoodAp n (ap_match_loop gnss_worse r cls (i + 1) s'))
        (sym (shift i (length cls)))
        (ap_match_loop-GoodAp cls (i + 1) s' next
          (pass-GoodAp i cl s here g (comparable gnss_worse r cl) refl))

  -- A hit has a best cacheline.
  above-ScoredAt :
      (best : Option ℕ) (ratio : Float) (threshold : ℤ)
      → Named best ratio threshold
      → above ratio threshold ≡ true
      → (i : ℕ) × (index_of best ≡ pos i) × ScoredAt i ratio threshold
  above-ScoredAt (some i) ratio threshold g h = (i, refl, g)
  above-ScoredAt none ratio threshold g h =
      let e : above ratio threshold ≡ false = rw (g.0, g.1) no_match in absurd (cc)

-- The cacheline at `from` is the best match of the request `r`, and good enough.
abbrev pub BestAt : (Rctx → CacheLine → Bool) → Rctx → List CacheLine → ℤ → Type 0
BestAt gnss_worse r lines from =
    (i : ℕ) × (cl : CacheLine) × (from ≡ pos i)
    × (get_elem? lines i ≡ some cl)
    × (comparable gnss_worse r cl ≡ true)
    × (count_cached_aps_in_request_ctx r cl ≤ r.num_ap)
    × (count_cached_aps_in_request_ctx r cl ≤ cl.num_ap)
    × (above (ratio_of r cl) (threshold_of r cl) ≡ true)
    × Greatest gnss_worse r lines (length lines) (ratio_of r cl)

-- Neither the request nor a cacheline has more than MAX_AP_BEACONS APs.
abbrev pub WithinArrays : Rctx → Type 0
WithinArrays r =
    (r.num_ap ≤ max_ap_beacons_max)
    × ((i : ℕ) (cl : CacheLine)
        → get_elem? r.session.cacheline i ≡ some cl
        → cl.num_ap ≤ max_ap_beacons_max)

-- A cacheline that expires keeps its APs.
expired-fits :
    (c : Config) (now : ℕ) (lines : List CacheLine) (i : ℕ) (cl : CacheLine)
    → ((j : ℕ) (x : CacheLine) → get_elem? lines j ≡ some x → x.num_ap ≤ max_ap_beacons_max)
    → get_elem? (map (expire c now) lines) i ≡ some cl
    → cl.num_ap ≤ max_ap_beacons_max
unfolding expire
expired-fits c now [] i cl fits e = absurd (cc)
expired-fits c now (x ∷ lines) zero cl fits e =
    let same : expire c now x ≡ cl = some-injective _ _ e in
    let kept : (expire c now x).num_ap ≡ x.num_ap = ground arith in
    subst (λ (y : CacheLine). y.num_ap ≤ max_ap_beacons_max) same (rw kept (fits 0 x refl))
expired-fits c now (x ∷ lines) (suc i) cl fits e =
    expired-fits c now lines i cl (λ j y here. fits (suc j) y here) e

-- What a hit in `q` means for the request `r`.
abbrev pub BestIn : (Rctx → CacheLine → Bool) → Rctx → Rctx → Type 0
BestIn gnss_worse r q = BestAt gnss_worse (expired r) q.session.cacheline q.get_from

-- With APs in the request, the search concludes with the best cacheline.
ap_match_some :
    (gnss_worse : Rctx → CacheLine → Bool) (r : Rctx)
    → (ap_match gnss_worse r).1 ≡ success
    → ap_match gnss_worse r
      ≡ (conclude_ap (expired r) (best_ap_match gnss_worse (expired r)), success)
unfolding ap_match
ap_match_some gnss_worse r ok = ground arith

conclude_ap-hit :
    (r : Rctx) (s : ApBest)
    → r.hit ≡ false
    → (conclude_ap r s).hit ≡ true
    → (above s.bestratio s.bestthresh ≡ true)
      × ((conclude_ap r s).get_from ≡ index_of s.bestc)
      × ((conclude_ap r s).session ≡ r.session)
unfolding conclude_ap
conclude_ap-hit r s fresh hit = ground arith

module _ (gnss_worse : Rctx → CacheLine → Bool) (r : Rctx) where
  abbrev pub best : ApBest
  best = best_ap_match gnss_worse (expired r)

  abbrev found : Rctx
  found = conclude_ap (expired r) best

  pub best-GoodAp :
      let lines = (expired r).session.cacheline in
      GoodAp gnss_worse (expired r) lines (length lines) best
  unfolding best_ap_match ap_start
  best-GoodAp =
      let lines = (expired r).session.cacheline in
      subst (λ (n : ℕ). GoodAp gnss_worse (expired r) lines n best) (sym (zero_add (length lines)))
        (ap_match_loop-GoodAp gnss_worse (expired r) lines lines 0 (ap_start lines)
          (λ k. ap (λ (n : ℕ). get_elem? lines n) (zero_add k))
          ((refl, refl), λ k cl small. absurd (omega arith)))

  found-BestIn : WithinArrays r → r.hit ≡ false → found.hit ≡ true → BestIn gnss_worse r found
  found-BestIn within fresh hit =
      let lines = (expired r).session.cacheline in
      let (is_above, from, kept) = conclude_ap-hit (expired r) best fresh hit in
      let (i, at_i, scored) =
        above-ScoredAt gnss_worse (expired r) lines best.bestc best.bestratio best.bestthresh
          best-GoodAp.0 is_above in
      let (cl, here, c, same_ratio, same_threshold) = scored in
      let enough : above (ratio_of (expired r) cl) (threshold_of (expired r) cl) ≡ true =
        rw (sym same_ratio, sym same_threshold) is_above in
      let fits =
        expired-fits r.session.config r.header.time r.session.cacheline i cl within.1 here in
      let counts = counts-bounds (expired r) cl fits in
      let greatest =
        subst (Greatest gnss_worse (expired r) lines (length lines)) same_ratio best-GoodAp.1 in
      subst (λ (s : Session). BestAt gnss_worse (expired r) s.cacheline found.get_from) (sym kept)
        (i, cl, from ∙ at_i, here, c, counts.0, counts.1, enough, greatest)

-- A search among the APs that succeeds, of a request that has no hit yet, with no more than
-- MAX_AP_BEACONS APs in the request or a cacheline, with a hit names a cacheline that is in use, that
-- does not differ in the serving cell or in a better fix, and whose share of common APs, which are no
-- more than either has, is above the threshold, a signed number; no such cacheline has a greater share.
pub ap_match-BestIn :
    (gnss_worse : Rctx → CacheLine → Bool) (r : Rctx)
    → WithinArrays r
    → r.hit ≡ false
    → (ap_match gnss_worse r).1 ≡ success
    → (ap_match gnss_worse r).0.hit ≡ true
    → BestIn gnss_worse r (ap_match gnss_worse r).0
ap_match-BestIn gnss_worse r within fresh ok hit =
    let e = ap_match_some gnss_worse r ok in
    subst (λ (x : Rctx × Status). BestIn gnss_worse r x.0) (sym e)
      (found-BestIn gnss_worse r within fresh (subst (λ (x : Rctx × Status). x.0.hit ≡ true) e hit))
