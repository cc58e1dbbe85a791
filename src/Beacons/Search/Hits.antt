-- ===== src/Beacons/Search/Hits.antt =====
-- libel/libel.c: what `sky_search_cache` answers.
use embedded_client.Plugins.ApMatch.{ap_match}
use embedded_client.Validate.Beacons.{validate_request_ctx}
use embedded_client.Plugins.CellMatch.{expired, cell_match}
use embedded_client.Beacons.Insert.Order.{basic_plugins}
use embedded_client.Plugins.CellMatch.Hits.{HitIn, cell_match-HitIn}
use embedded_client.Plugins.ApMatch.Hits.{BestIn, ap_match-BestIn, WithinArrays}
use embedded_client.Beacons.Search.{
  unwritten, unable_to_locate, bad_request, from_cacheline, null_dereference, searched,
  sky_plugin_match_cache, search_cache, Searched, sky_search_cache, is_cache_hit, missed,
}
use embedded_client.Types.{
  error_bad_request_ctx, success, error, error_none, Rctx, CacheLine, Status,
}
use embedded_client.Common.{
  inr, inl, false, true, ◌⊎◌, if◌then◌else◌, ◌≡◌, subst, arith, sym, refl, Bool, not, if_lem,
}

abbrev valid : Rctx → Rctx
valid r = (validate_request_ctx r).1

validate-keeps :
    (r : Rctx)
    → ((valid r).session ≡ r.session) × ((valid r).hit ≡ r.hit) × ((valid r).num_ap ≡ r.num_ap)
unfolding validate_request_ctx
validate-keeps r = ground arith

-- A hit is the best match among the APs or, of a request with no AP, has all its cells.
abbrev pub Matches : (Rctx → CacheLine → Bool) → Rctx → Rctx → Type 0
Matches gnss_worse r q = BestIn gnss_worse r q ⊎ ((r.num_ap ≡ 0) × HitIn gnss_worse (expired r) q)

module _ (gnss_worse : Rctx → CacheLine → Bool) where
  ap_match-error :
      (r : Rctx)
      → (ap_match gnss_worse r).1 ≡ error
      → (ap_match gnss_worse r ≡ (expired r, error)) × (r.num_ap ≡ 0)
  unfolding ap_match
  ap_match-error r e = ground arith

  match_cache-cases :
      (r : Rctx)
      → r.session.plugins ≡ basic_plugins
      → let matched = sky_plugin_match_cache gnss_worse r.session.plugins r in
        ((matched ≡ ap_match gnss_worse r) × ((ap_match gnss_worse r).1 ≡ success))
        ⊎ ((r.num_ap ≡ 0)
            × (matched ≡ cell_match gnss_worse (expired r))
            × ((cell_match gnss_worse (expired r)).1 ≡ success))
        ⊎ (matched.1 ≡ error)
  unfolding sky_plugin_match_cache
  match_cache-cases r basic = simp basic (ground (arith, ap_match-error r))

  match_cache-Matches :
      (r : Rctx)
      → r.session.plugins ≡ basic_plugins
      → WithinArrays r
      → r.hit ≡ false
      → let matched = sky_plugin_match_cache gnss_worse r.session.plugins r in
        matched.1 ≡ success → matched.0.hit ≡ true → Matches gnss_worse r matched.0
  match_cache-Matches r basic within fresh ok hit = elim (match_cache-cases r basic) [
    | inl (e, ok') ↦ inl (
        subst (λ (x : Rctx × Status). BestIn gnss_worse r x.0) (sym e)
          (ap_match-BestIn gnss_worse r within fresh ok'
            (subst (λ (x : Rctx × Status). x.0.hit ≡ true) e hit)))
    | inr (inl (no_ap, e, ok')) ↦ inr (
      no_ap,
      subst (λ (x : Rctx × Status). HitIn gnss_worse (expired r) x.0) (sym e)
          (cell_match-HitIn gnss_worse (expired r) ok'
            (subst (λ (x : Rctx × Status). x.0.hit ≡ true) e hit)),
    )
    | inr (inr failed) ↦ absurd (cc)
  ]

  search_cache-hit :
      (r : Rctx)
      → is_cache_hit (search_cache gnss_worse r) ≡ true
      → let matched = sky_plugin_match_cache gnss_worse r.session.plugins r in
        (search_cache gnss_worse r ≡ matched.0) × (matched.1 ≡ success) × (matched.0.hit ≡ true)
  unfolding search_cache
  search_cache-hit r hit = ground arith

  search_cache-Matches :
      (r : Rctx)
      → r.session.plugins ≡ basic_plugins
      → WithinArrays r
      → r.hit ≡ false
      → is_cache_hit (search_cache gnss_worse r) ≡ true
      → Matches gnss_worse r (search_cache gnss_worse r)
  unfolding search_cache
  search_cache-Matches r basic within fresh hit =
      let matched = sky_plugin_match_cache gnss_worse r.session.plugins r in
      let same = search_cache-hit r hit in
      rw (same.0) (match_cache-Matches r basic within fresh same.1 same.2)

  -- What the caller learns of the request `r`.
  abbrev pub Answers : Rctx → Bool → Searched → Type 0
  Answers r loc_given null_dereference = loc_given ≡ false
  Answers r loc_given (bad_request q e) =
      ((validate_request_ctx r).0 ≡ false) × (e ≡ error_bad_request_ctx)
  Answers r loc_given (searched q e true loc) =
      (e ≡ error_none)
      × (loc ≡ (if loc_given then from_cacheline q.get_from else unwritten))
      × Matches gnss_worse (validate_request_ctx r).1 q
  Answers r loc_given (searched q e false loc) =
      (e ≡ error_none) × (loc ≡ unable_to_locate) × (q.hit ≡ false) × (q.session.cache_hits ≡ 0)

  sky_search_cache-cases :
      (r : Rctx) (loc_given : Bool) (q : Rctx)
      → let r1 = (validate_request_ctx r).1 in
        q ≡ search_cache gnss_worse r1
        → (is_cache_hit q ≡ true → Matches gnss_worse r1 q)
        → Answers r loc_given (sky_search_cache gnss_worse r loc_given)
  unfolding sky_search_cache missed
  sky_search_cache-cases r loc_given q e matches =
      let r1 = (validate_request_ctx r).1 in
      let P = Answers r loc_given in
      let found =
        searched q error_none true (if loc_given then from_cacheline q.get_from else unwritten) in
      let lost =
        if loc_given
        then searched (missed q) error_none false unable_to_locate
        else null_dereference in
      subst
        (λ (x : Rctx). P (
          if not (validate_request_ctx r).0
          then bad_request r1 error_bad_request_ctx
          else if is_cache_hit x
          then searched x error_none true
              (if loc_given then from_cacheline x.get_from else unwritten)
          else if loc_given
          then searched (missed x) error_none false unable_to_locate
          else null_dereference))
        e
        (if_lem P (not (validate_request_ctx r).0) (bad_request r1 error_bad_request_ctx)
          (if is_cache_hit q then found else lost) (λ bad. (ground arith, refl))
          (λ ok.
            if_lem P (is_cache_hit q) found lost (λ hit. (refl, refl, matches hit))
              (λ miss.
                if_lem P loc_given (searched (missed q) error_none false unable_to_locate)
                  null_dereference (λ g. (refl, refl, refl, refl)) (λ g. g))))

-- With the basic plugins, no more than MAX_AP_BEACONS APs in the request or a cacheline, and no hit
-- noted in the request yet: a search answers a hit only with the best match of the request, and
-- otherwise reports no location and clears the count of hits; it crashes only for a caller that asks
-- for no location.
pub sky_search_cache-Answers :
    (gnss_worse : Rctx → CacheLine → Bool) (r : Rctx) (loc_given : Bool)
    → r.session.plugins ≡ basic_plugins
    → WithinArrays r
    → r.hit ≡ false
    → Answers gnss_worse r loc_given (sky_search_cache gnss_worse r loc_given)
sky_search_cache-Answers gnss_worse r loc_given basic within fresh =
    let (session, hit, aps) = validate-keeps r in
    sky_search_cache-cases gnss_worse r loc_given (search_cache gnss_worse (valid r)) refl (
      search_cache-Matches gnss_worse (valid r) (rw session basic)
        (rw aps within.0, rw session within.1) (rw hit fresh))
