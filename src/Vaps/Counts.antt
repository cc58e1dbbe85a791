-- ===== src/Vaps/Counts.antt =====
-- libel/utilities.c: the number of virtual groups, and the index of each.
use embedded_client.Vaps.Groups.{kept-Shared, length-take, take-select_vap}
use embedded_client.Vaps.Rounds.{total, ChildrenFit, level, padded, children, lesser}
use embedded_client.Types.{Beacon, Rctx, max_ap_beacons_max}
use embedded_client.Vaps.{
  count_groups, complete, select_vap, get_num_vaps, find_group, is_group, get_vap_data,
}
use embedded_client.Common.{
  refl, [], zero, suc, inl, inr, ◌∷◌, ◌==◌, ◌⊎◌, ◌≤◌, if◌then◌else◌, ℕ, List, ◌+◌, ◌≡◌, arith, ap,
  none, true, some, ◌<◌, ◌-◌, ◌∙◌, take, length, sym, false, ◌≢◌, Bool-cases, dec_lt,
}

abbrev positive : ℕ → ℕ
positive n = if n == 0 then 0 else 1

-- The number of lists of children that are not empty.
abbrev pub positives : List ℕ → ℕ
positives [] = 0
positives (n ∷ ns) = positive n + positives ns

count_groups_add : (bs : List Beacon) (nv : ℕ) → count_groups bs nv ≡ nv + count_groups bs 0
unfolding count_groups
count_groups_add [] nv = omega arith
count_groups_add (b ∷ bs) nv =
    ground (arith, count_groups_add bs (nv + 1), count_groups_add bs 1, count_groups_add bs nv)

-- A group that keeps no child is none.
count_groups-complete :
    (k t m j : ℕ) (bs : List Beacon)
    → ChildrenFit bs
    → count_groups (complete bs (padded (level k t bs) m) j) 0 ≡ positives (level k t bs)
unfolding complete count_groups
count_groups-complete k t m j [] fit = refl
count_groups-complete zero t m j (b ∷ bs) (here, fit) =
    let rest = complete bs (padded (level zero t bs) m) (j + 1) in
    ground (
      arith,
      count_groups-complete zero t m (j + 1) bs fit,
      count_groups_add rest 1,
      count_groups_add rest 0,
    )
count_groups-complete (suc k) t m j (b ∷ bs) (here, fit) =
    let rest = complete bs (padded (level k t bs) m) (j + 1) in
    ground (
      arith,
      count_groups-complete k t m (j + 1) bs fit,
      count_groups_add rest 1,
      count_groups_add rest 0,
    )

-- At level 0 a group has at most one child.
positives-first : (k : ℕ) (bs : List Beacon) → positives (level k zero bs) ≡ total (level k zero bs)
positives-first k [] = refl
positives-first zero (b ∷ bs) = ground (arith, positives-first zero bs)
positives-first (suc k) (b ∷ bs) = ground (arith, positives-first k bs)

positives-later :
    (k t : ℕ) (bs : List Beacon) → positives (level k (suc t) bs) ≡ positives (children bs)
positives-later k t [] = refl
positives-later zero t (b ∷ bs) = ground (arith, positives-later zero t bs)
positives-later (suc k) t (b ∷ bs) = ground (arith, positives-later k t bs)

positives-le-children :
    (k t : ℕ) (bs : List Beacon) → positives (level k t bs) ≤ positives (children bs)
positives-le-children k t [] = omega arith
positives-le-children zero t (b ∷ bs) = ground (arith, positives-le-children zero t bs)
positives-le-children (suc k) t (b ∷ bs) = ground (arith, positives-le-children k t bs)

positives-le-total : (ns : List ℕ) → positives ns ≤ total ns
positives-le-total [] = omega arith
positives-le-total (n ∷ ns) = ground (arith, positives-le-total ns)

groups_of_shares :
    (limit k t : ℕ) (bs : List Beacon)
    → total (level k t bs) ≤ limit
    → (total (level k t bs) ≡ limit) ⊎ (level k t bs ≡ children bs)
    → positives (level k t bs) ≡ lesser (positives (children bs)) limit
groups_of_shares limit k zero bs le (inl full) =
    ground (arith, positives-first k bs, positives-le-children k zero bs)
groups_of_shares limit k (suc t) bs le (inl full) =
    ground (arith, positives-later k t bs, positives-le-total (level k (suc t) bs))
groups_of_shares limit k t bs le (inr all) =
    ground (arith, ap positives all, positives-le-total (level k t bs))

select_vap-num_ap : (r : Rctx) → (select_vap r).num_ap ≡ r.num_ap
unfolding select_vap
select_vap-num_ap r = refl

-- In a request of at most MAX_AP_BEACONS APs, whose children fit into their arrays, `select_vap`
-- retains as many virtual groups as possible: all that have children, or as many as the limit.
pub get_num_vaps-select_vap :
    (r : Rctx)
    → ChildrenFit (take r.num_ap r.beacon)
    → r.num_ap ≤ max_ap_beacons_max
    → r.num_ap ≤ length r.beacon
    → get_num_vaps (select_vap r)
      ≡ lesser (positives (children (take r.num_ap r.beacon))) r.session.config.max_vap_per_rq
unfolding get_num_vaps
get_num_vaps-select_vap r fit few live =
    let bs = take r.num_ap r.beacon in
    let limit = r.session.config.max_vap_per_rq in
    let m = max_ap_beacons_max - length bs in
    let (k, t, e, within, sum, le, how, stop) =
      kept-Shared r fit (omega (arith, length-take r.num_ap r.beacon live)) in
    let full : (total (level k t bs) ≡ limit) ⊎ (level k t bs ≡ children bs) = elim how [
      | inl full ↦ inl (sym sum ∙ full)
      | inr all ↦ inr all
    ] in
    ap (λ (n : ℕ). count_groups (take n (select_vap r).beacon) 0) (select_vap-num_ap r)
    ∙ ap (λ (xs : List Beacon). count_groups xs 0)
        (take-select_vap r live ∙ ap (λ (ns : List ℕ). complete bs ns 0) e)
    ∙ count_groups-complete k t m 0 bs fit
    ∙ groups_of_shares limit k t bs (omega arith) full

passed : Beacon → ℕ
passed b = if is_group b then 1 else 0

find_group-here :
    (b : Beacon) (bs : List Beacon) (idx nvg : ℕ)
    → is_group b ≡ true
    → nvg ≡ idx
    → find_group (b ∷ bs) idx nvg ≡ some b
unfolding find_group
find_group-here b bs idx nvg g e = ground (arith, g, e)

find_group-next :
    (b : Beacon) (bs : List Beacon) (idx nvg : ℕ)
    → (is_group b ≡ false) ⊎ (nvg ≢ idx)
    → find_group (b ∷ bs) idx nvg ≡ find_group bs idx (nvg + passed b)
unfolding find_group passed
find_group-next b bs idx nvg other = ground (arith, other)

count_groups_cons :
    (b : Beacon) (bs : List Beacon) → count_groups (b ∷ bs) 0 ≡ passed b + count_groups bs 0
unfolding count_groups passed
count_groups_cons b bs = ground (arith, count_groups_add bs 1, count_groups_add bs 0)

-- The group at an index, or none.
abbrev GroupOrNone : ℕ → List Beacon → ℕ → ℕ → Type 0
GroupOrNone groups bs idx nvg =
    ((idx < nvg + groups) × (b : Beacon) × (find_group bs idx nvg ≡ some b) × (is_group b ≡ true))
    ⊎ ((nvg + groups ≤ idx) × (find_group bs idx nvg ≡ none))

find_group-cases :
    (bs : List Beacon) (idx nvg : ℕ) → nvg ≤ idx → GroupOrNone (count_groups bs 0) bs idx nvg
unfolding find_group count_groups
find_group-cases [] idx nvg le = inr (omega arith, refl)
find_group-cases (b ∷ bs) idx nvg le =
    let next : ((is_group b ≡ false) ⊎ (nvg ≢ idx))
        → nvg + passed b ≤ idx
        → GroupOrNone (count_groups (b ∷ bs) 0) (b ∷ bs) idx nvg =
      λ other le'. elim (find_group-cases bs idx (nvg + passed b) le') [
        | inl (lt, c, e, g) ↦
            inl
              (omega (arith, count_groups_cons b bs), c, find_group-next b bs idx nvg other ∙ e, g)
        | inr (ge, e) ↦
            inr (omega (arith, count_groups_cons b bs), find_group-next b bs idx nvg other ∙ e)
      ] in
    elim (Bool-cases (is_group b)) [
      | inr g ↦ next (inl g) (unfold passed in ground (arith, g))
      | inl g ↦ elim (dec_lt nvg idx) [
        | yes later ↦ next (inr (λ e. omega arith)) (unfold passed in ground (arith, g))
        | no here ↦ inl (
          unfold passed in ground (arith, g, count_groups_cons b bs),
          b,
          find_group-here b bs idx nvg g (omega arith),
          g,
        )
      ]
    ]

-- Every index below the count of the virtual groups is that of a group with children, and there is
-- none at any other index.
pub get_vap_data-get_num_vaps :
    (r : Rctx) (idx : ℕ)
    → ((idx < get_num_vaps r) × (b : Beacon) × (get_vap_data r idx ≡ some b) × (is_group b ≡ true))
      ⊎ ((get_num_vaps r ≤ idx) × (get_vap_data r idx ≡ none))
unfolding get_num_vaps get_vap_data
get_vap_data-get_num_vaps r idx =
    elim (find_group-cases (take r.num_ap r.beacon) idx 0 (omega arith)) [
      | inl (lt, b, e, g) ↦ inl (omega arith, b, e, g)
      | inr (ge, e) ↦ inr (omega arith, e)
    ]
