-- ===== src/Vaps/Groups.antt =====
-- libel/utilities.c: what `select_vap` leaves of the virtual groups.
use embedded_client.Vaps.Select.{Shared, rounds-Shared, rounds-more}
use embedded_client.Vaps.Rounds.{
  ChildrenFit, padded, level, level-zero, replicate-padded, none_yet, total, children,
}
use embedded_client.Types.{Rctx, Beacon, max_ap_beacons_max}
use embedded_client.Vaps.{kept, complete, Round, rounds, select_vap, goes_on}
use embedded_client.Common.{
  zero, [], false, inr, suc, refl, ◌∷◌, ◌≤◌, ◌-◌, ◌++◌, ◌∙◌, List, ℕ, ◌≡◌, length, ◌+◌, take, ap,
  arith, replicate, subst, inl, ◌⊎◌, drop,
}

pub kept-Shared :
    (r : Rctx)
    → ChildrenFit (take r.num_ap r.beacon)
    → length (take r.num_ap r.beacon) ≤ max_ap_beacons_max
    → let bs = take r.num_ap r.beacon in
      Shared r.session.config.max_vap_per_rq (max_ap_beacons_max - length bs) bs (kept r)
unfolding kept
kept-Shared r fit few =
    let bs = take r.num_ap r.beacon in
    let m = max_ap_beacons_max - length bs in
    let limit = r.session.config.max_vap_per_rq in
    let s : Round = record { nvap = 0; no_more = false } in
    let size : length bs + m ≡ max_ap_beacons_max = omega arith in
    let zeros : padded (level zero zero bs) m ≡ replicate max_ap_beacons_max 0 =
      ap (λ (ns : List ℕ). padded ns m) (level-zero bs)
      ∙ replicate-padded (length bs) m
      ∙ ap (λ (n : ℕ). replicate n 0) size in
    subst (λ (ns : List ℕ). Shared limit m bs (rounds (limit + 1) limit bs ns s)) zeros
      (rounds-Shared (limit + 1) limit m zero bs s fit (none_yet bs) (omega arith)
        (λ y. absurd (cc)) (inr (omega arith)))

-- The children that the encoder will find of every group.
abbrev pub kept_children : List Beacon → List ℕ
kept_children [] = []
kept_children (b ∷ bs) = (b.ap.vap_length - 1) ∷ kept_children bs

-- Every AP names its own index, from `j` on.
abbrev pub Numbered : ℕ → List Beacon → Type 0
Numbered j [] = Unit {0}
Numbered j (b ∷ bs) = (b.ap.vap_parent ≡ j) × Numbered (j + 1) bs

kept_children-complete :
    (k t m j : ℕ) (bs : List Beacon)
    → ChildrenFit bs
    → kept_children (complete bs (padded (level k t bs) m) j) ≡ level k t bs
unfolding complete
kept_children-complete k t m j [] fit = refl
kept_children-complete zero t m j (b ∷ bs) (here, fit) =
    ground (arith, kept_children-complete zero t m (j + 1) bs fit)
kept_children-complete (suc k) t m j (b ∷ bs) (here, fit) =
    ground (arith, kept_children-complete k t m (j + 1) bs fit)

Numbered-complete :
    (k t m j : ℕ) (bs : List Beacon)
    → j + length bs ≤ 256
    → Numbered j (complete bs (padded (level k t bs) m) j)
unfolding complete
Numbered-complete k t m j [] le = tt
Numbered-complete zero t m j (b ∷ bs) le =
    (omega arith, Numbered-complete zero t m (j + 1) bs (omega arith))
Numbered-complete (suc k) t m j (b ∷ bs) le =
    (omega arith, Numbered-complete k t m (j + 1) bs (omega arith))

length-complete :
    (bs : List Beacon) (caps : List ℕ) (j : ℕ) → length (complete bs caps j) ≡ length bs
unfolding complete
length-complete [] caps j = refl
length-complete (b ∷ bs) [] j = refl
length-complete (b ∷ bs) (n ∷ caps) j = ap suc (length-complete bs caps (j + 1))

take-append : (n : ℕ) (xs ys : List Beacon) → length xs ≡ n → take n (xs ++ ys) ≡ xs
take-append zero [] ys e = refl
take-append (suc n) [] ys e = absurd (omega arith)
take-append zero (x ∷ xs) ys e = absurd (omega arith)
take-append (suc n) (x ∷ xs) ys e =
    ap (λ (zs : List Beacon). x ∷ zs) (take-append n xs ys (omega arith))

pub length-take : (n : ℕ) (xs : List Beacon) → n ≤ length xs → length (take n xs) ≡ n
length-take zero xs le = refl
length-take (suc n) [] le = absurd (omega arith)
length-take (suc n) (x ∷ xs) le = ap suc (length-take n xs (omega arith))

-- The APs of the trimmed request.
pub take-select_vap :
    (r : Rctx)
    → r.num_ap ≤ length r.beacon
    → take r.num_ap (select_vap r).beacon ≡ complete (take r.num_ap r.beacon) (kept r).0 0
unfolding select_vap
take-select_vap r live =
    let bs = take r.num_ap r.beacon in
    take-append r.num_ap (complete bs (kept r).0 0) (drop r.num_ap r.beacon)
      (length-complete bs (kept r).0 0 ∙ length-take r.num_ap r.beacon live)

-- A request trimmed to `q`: in the order of the APs, every group keeps `t` or all of its children, the
-- first `k` up to `t + 1`.
abbrev pub Trimmed : Rctx → Rctx → Type 0
Trimmed r q =
    let limit = r.session.config.max_vap_per_rq in
    let before = take r.num_ap r.beacon in
    let after = take r.num_ap q.beacon in
    (k : ℕ) × (t : ℕ) × (kept_children after ≡ level k t before)
    × (k ≤ length before)
    × (total (kept_children after) ≤ limit)
    × ((total (kept_children after) ≡ limit) ⊎ (kept_children after ≡ children before))
    × Numbered 0 after

-- In a request of at most MAX_AP_BEACONS APs, whose children fit into their arrays, `select_vap` shares
-- the children out in turn, one to each group that has some left: it keeps at most as many as the
-- limit, and fewer than the limit only if it keeps all. Every AP gets its own index as its parent.
pub select_vap-Trimmed :
    (r : Rctx)
    → ChildrenFit (take r.num_ap r.beacon)
    → r.num_ap ≤ max_ap_beacons_max
    → r.num_ap ≤ length r.beacon
    → Trimmed r (select_vap r)
select_vap-Trimmed r fit few live =
    let bs = take r.num_ap r.beacon in
    let sized = length-take r.num_ap r.beacon live in
    let m = max_ap_beacons_max - length bs in
    let (k, t, e, within, sum, le, how, stop) = kept-Shared r fit (omega arith) in
    let after : take r.num_ap (select_vap r).beacon ≡ complete bs (padded (level k t bs) m) 0 =
      take-select_vap r live ∙ ap (λ (ns : List ℕ). complete bs ns 0) e in
    let same : kept_children (take r.num_ap (select_vap r).beacon) ≡ level k t bs =
      ap kept_children after ∙ kept_children-complete k t m 0 bs fit in
    let sum' = ap total same in
    (
      k,
      t,
      same,
      within,
      omega arith,
      elim how [ inl full ↦ inl (omega arith) | inr all ↦ inr (same ∙ all) ],
      rw after (Numbered-complete k t m 0 bs (omega arith)),
    )

-- Under the same conditions the outer loop of `select_vap` ends: after at most one round more than
-- the limit its test fails, and further rounds change nothing.
pub select_vap-ends :
    (r : Rctx) (extra : ℕ)
    → ChildrenFit (take r.num_ap r.beacon)
    → r.num_ap ≤ max_ap_beacons_max
    → r.num_ap ≤ length r.beacon
    → let limit = r.session.config.max_vap_per_rq in
      (goes_on limit (kept r).1 ≡ false)
      × (rounds
            (limit + 1 + extra)
            limit
            (take r.num_ap r.beacon)
            (replicate max_ap_beacons_max 0)
            (record { nvap = 0; no_more = false })
          ≡ kept r)
unfolding kept
select_vap-ends r extra fit few live =
    let sized = length-take r.num_ap r.beacon live in
    let (k, t, e, within, sum, le, how, stop) = kept-Shared r fit (omega arith) in
    let limit = r.session.config.max_vap_per_rq in
    (
      stop,
      rounds-more (limit + 1) extra limit (take r.num_ap r.beacon) (replicate max_ap_beacons_max 0)
          (record { nvap = 0; no_more = false }) stop,
    )
