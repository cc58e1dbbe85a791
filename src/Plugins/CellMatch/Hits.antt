-- ===== src/Plugins/CellMatch/Hits.antt =====
-- plugins/cell_plugin_basic.c: what a hit of `match` means.
use embedded_client.Plugins.CellMatch.{
  note, Best, comparable, full_score, match_loop, cell_match, expired, conclude_match, index_of,
  best_match, Status, start,
}
use embedded_client.Types.{Rctx, CacheLine, success}
use embedded_client.Common.{
  if◌then◌else◌, ℕ, false, true, none, some, Bool, List, get_elem?, Option, ◌≡◌, inr, suc, [], inl,
  ◌∷◌, ◌⊎◌, ◌+◌, arith, sym, ◌∙◌, ap, pos, refl, subst, add_zero, zero_add, shift, ℤ, to_i32, ltb_ℤ,
}

note-cases :
    (i : ℕ) (threshold : ℤ) (ratio : Bool) (s : Best)
    → let s' = note i threshold ratio s in
      ((s'.bestc ≡ s.bestc) × (s'.bestratio ≡ s.bestratio) × (s'.bestthresh ≡ s.bestthresh))
      ⊎ ((ratio ≡ true) × (s'.bestc ≡ some i))
unfolding note
note-cases i threshold ratio s = ground arith

module _ (gnss_worse : Rctx → CacheLine → Bool) (r : Rctx) (lines : List CacheLine) where
  -- The cacheline at `i` is in use, comparable, and has all cells of the request.
  abbrev pub FullAt : ℕ → Type 0
  FullAt i =
      (cl : CacheLine) × (get_elem? lines i ≡ some cl)
      × (comparable gnss_worse r cl ≡ true)
      × (full_score r cl ≡ true)

  abbrev GoodBest : Option ℕ → Bool → ℤ → Type 0
  GoodBest none ratio threshold = (ratio ≡ false) × (threshold ≡ pos 0)
  GoodBest (some i) ratio threshold = FullAt i

  note-GoodBest :
      (i : ℕ) (threshold : ℤ) (cl : CacheLine) (s : Best)
      → get_elem? lines i ≡ some cl
      → comparable gnss_worse r cl ≡ true
      → GoodBest s.bestc s.bestratio s.bestthresh
      → let s' = note i threshold (full_score r cl) s in
        GoodBest s'.bestc s'.bestratio s'.bestthresh
  note-GoodBest i threshold cl s e c g = elim (note-cases i threshold (full_score r cl) s) [
    | inl same ↦ rw (same.0, same.1, same.2) g
    | inr found ↦ rw (found.1) (cl, e, c, found.0)
  ]

  either-GoodBest :
      (c : Bool) (s t : Best)
      → (c ≡ true → GoodBest s.bestc s.bestratio s.bestthresh)
      → (c ≡ false → GoodBest t.bestc t.bestratio t.bestthresh)
      → GoodBest
          (if c then s else t).bestc
          (if c then s else t).bestratio
          (if c then s else t).bestthresh
  either-GoodBest true s t gs gt' = gs refl
  either-GoodBest false s t gs gt' = gt' refl

  match_loop-GoodBest :
      (cls : List CacheLine) (i : ℕ) (s : Best)
      → ((k : ℕ) → get_elem? cls k ≡ get_elem? lines (i + k))
      → GoodBest s.bestc s.bestratio s.bestthresh
      → let s' = match_loop gnss_worse r cls i s in GoodBest s'.bestc s'.bestratio s'.bestthresh
  unfolding match_loop
  match_loop-GoodBest [] i s at g = g
  match_loop-GoodBest (cl ∷ cls) i s at g =
      let here : get_elem? lines i ≡ some cl = rw (add_zero i) (sym (at 0)) in
      let next : (k : ℕ) → get_elem? cls k ≡ get_elem? lines (i + 1 + k) =
        λ k. at (suc k) ∙ ap (λ (n : ℕ). get_elem? lines n) (shift i k) in
      let threshold = to_i32 r.session.config.cache_match_all_threshold in
      match_loop-GoodBest cls (i + 1) _ next (
        either-GoodBest (comparable gnss_worse r cl) (note i threshold (full_score r cl) s) s
          (λ c. note-GoodBest i threshold cl s here c g) (λ c. g))

  -- A hit has a best cacheline.
  hit-FullAt :
      (best : Option ℕ) (ratio : Bool) (threshold : ℤ)
      → GoodBest best ratio threshold
      → ltb_ℤ threshold (if ratio then pos 100 else pos 0) ≡ true
      → (i : ℕ) × (index_of best ≡ pos i) × FullAt i
  hit-FullAt (some i) ratio threshold g h = (i, refl, g)
  hit-FullAt none ratio threshold g h = absurd (ground arith)

-- With cells in the request, the search concludes with the best cacheline.
cell_match_some :
    (gnss_worse : Rctx → CacheLine → Bool) (r : Rctx)
    → (cell_match gnss_worse r).1 ≡ success
    → cell_match gnss_worse r
      ≡ (conclude_match (expired r) (best_match gnss_worse (expired r)), success)
unfolding cell_match
cell_match_some gnss_worse r ok = ground arith

-- What a hit in `q` means for the request `r`.
abbrev pub HitIn : (Rctx → CacheLine → Bool) → Rctx → Rctx → Type 0
HitIn gnss_worse r q =
    (i : ℕ) × (q.get_from ≡ pos i) × FullAt gnss_worse (expired r) q.session.cacheline i

concluded-HitIn :
    (gnss_worse : Rctx → CacheLine → Bool) (r : Rctx)
    → let q = conclude_match (expired r) (best_match gnss_worse (expired r)) in
      q.hit ≡ true → HitIn gnss_worse r q
unfolding conclude_match best_match
concluded-HitIn gnss_worse r hit =
    let lines = (expired r).session.cacheline in
    let good =
      match_loop-GoodBest gnss_worse (expired r) lines lines 0 (start lines)
        (λ k. ap (λ (n : ℕ). get_elem? lines n) (zero_add k)) (refl, refl) in
    hit-FullAt gnss_worse (expired r) lines _ _ _ good hit

-- A search that succeeds with a hit names a cacheline that is in use, that does not differ in the
-- serving cell or in a better fix, and that holds every cell of the request.
pub cell_match-HitIn :
    (gnss_worse : Rctx → CacheLine → Bool) (r : Rctx)
    → (cell_match gnss_worse r).1 ≡ success
    → (cell_match gnss_worse r).0.hit ≡ true
    → HitIn gnss_worse r (cell_match gnss_worse r).0
cell_match-HitIn gnss_worse r ok hit =
    let e = cell_match_some gnss_worse r ok in
    subst (λ (x : Rctx × Status). HitIn gnss_worse r x.0) (sym e)
      (concluded-HitIn gnss_worse r (subst (λ (x : Rctx × Status). x.0.hit ≡ true) e hit))
