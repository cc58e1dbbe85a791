-- ===== src/Plugins/ApWorst/Bounds.antt =====
-- plugins/ap_plugin_basic.c: the effect of `remove_worst` on the list of beacons.
use embedded_client.Common.{
  ℕ, zero, suc, ◌+◌, ◌-◌, ◌/◌, ◌<◌, ◌≤◌, ◌≡◌, refl, inl, inr, Bool, true, false, not, List, [], ◌∷◌,
  Option, none, some, ltb, length, get_or, set, length-set, Bool-cases, Option-cases, arith, dec_lt,
  ltb→lt, pos,
}
use embedded_client.Types.{Beacon, Rctx, Status, success, error, num_beacons, empty_slot}
use embedded_client.Float.{Float, of_int}
use embedded_client.Beacons.Remove.{
  ApsFirst, ApsFirst-le-length, Removed, remove_beacon, remove_beacon-Removed,
}
use embedded_client.Plugins.ApWorst.{
  Search, consider, advance, search_loop, set_priorities, candidate, visit_pair, inner_loop,
  outer_loop, worst_vap, removed_at, remove_virtual_ap, Ages, visit_age, age_loop, oldest_removed,
  remove_oldest_ap, ap_remove_worst, get_priority, is_worse, ap_below_rssi_threshold, remove_ap,
}

ApsFirst-set_priority :
    (n : ℕ) (bs : List Beacon) (i : ℕ) (p : Float)
    → ApsFirst n bs
    → ApsFirst n (set bs i (record (get_or bs i empty_slot) { priority = p }))
ApsFirst-set_priority n [] i p h = h
ApsFirst-set_priority zero (b ∷ bs) zero p h = h
ApsFirst-set_priority zero (b ∷ bs) (suc i) p h = (h.0, ApsFirst-set_priority zero bs i p h.1)
ApsFirst-set_priority (suc n) (b ∷ bs) zero p h = h
ApsFirst-set_priority (suc n) (b ∷ bs) (suc i) p h = (h.0, ApsFirst-set_priority n bs i p h.1)

record IsSearch (n len : ℕ) (s : Search) : Type 0 where
  within : s.idx_of_worst < n
  ordered : ApsFirst n s.aps
  same_length : length s.aps ≡ len

consider-IsSearch :
    (r : Rctx) (weak : Bool) (j len : ℕ) (s : Search)
    → j < r.num_ap
    → IsSearch r.num_ap len s
    → IsSearch r.num_ap len (consider r weak j s)
unfolding consider
consider-IsSearch r weak j len s lt h =
    let p = get_priority r.num_ap s.aps j in
    let v : Beacon = record (get_or s.aps j empty_slot) { priority = p } in
    ground (
      arith,
      ApsFirst-set_priority r.num_ap s.aps j p h.ordered,
      length-set s.aps j v,
      Bool-cases (is_worse r weak j p (set s.aps j v) s),
    )

search_loop-IsSearch :
    (r : Rctx) (weak : Bool) (len jump : ℕ) (up : Bool) (j : ℕ) (s : Search)
    → IsSearch r.num_ap len s
    → IsSearch r.num_ap len (search_loop r weak jump up j s)
unfolding search_loop
search_loop-IsSearch r weak len zero up j s h = h
search_loop-IsSearch r weak len (suc jump) up j s h = elim (Bool-cases (ltb j r.num_ap)) [
  | inr out ↦ rw (out, search_loop) h
  | inl lt ↦
      let here : IsSearch r.num_ap len (consider r weak j s) =
        consider-IsSearch r weak j len s (ltb→lt _ _ lt) h in
      elim (Option-cases (advance up j jump)) [
        | inl end ↦ rw (lt, search_loop) (rw (end, search_loop) here)
        | inr (j', more) ↦
            rw (lt, search_loop)
              (rw (more, search_loop)
                (search_loop-IsSearch r weak len jump (not up) j' (consider r weak j s) here))
      ]
]

search_loop_none :
    (r : Rctx) (weak : Bool) (jump : ℕ) (up : Bool) (j : ℕ) (s : Search)
    → jump ≡ 0
    → search_loop r weak jump up j s ≡ s
unfolding search_loop
search_loop_none r weak zero up j s e = refl
search_loop_none r weak (suc jump) up j s e = absurd (omega arith)

-- A request context with as many beacons and APs, in order, of the same session and header.
pub record Reordered (r q : Rctx) : Type 0 where
  pub ordered : ApsFirst q.num_ap q.beacon
  pub same_aps : q.num_ap ≡ r.num_ap
  pub same_length : num_beacons q ≡ num_beacons r
  pub same_spare : length q.spare ≡ length r.spare
  pub same_header : q.header ≡ r.header
  pub same_session : q.session ≡ r.session

module _ (r : Rctx) (h : ApsFirst r.num_ap r.beacon) where
  set_priorities-Reordered :
      Reordered r (set_priorities r).0 × (0 < r.num_ap → (set_priorities r).1 < r.num_ap)
  unfolding set_priorities
  set_priorities-Reordered = elim (dec_lt 0 r.num_ap) [
    | yes some_ap ↦
        let s =
          search_loop-IsSearch r (ap_below_rssi_threshold r r.beacon (r.num_ap - 1)) (num_beacons r)
            r.num_ap true 0 _ (record { within = omega arith; ordered = h; same_length = refl }) in
        (
          record {
            ordered = s.ordered;
            same_aps = refl;
            same_length = s.same_length;
            same_spare = refl;
            same_header = refl;
            same_session = refl;
          },
          λ _. s.within,
        )
    | no none_ap ↦
        let same =
          search_loop_none r (ap_below_rssi_threshold r r.beacon (r.num_ap - 1)) r.num_ap true 0
            (record {
              aps = r.beacon;
              idx_of_worst = r.num_ap / 2;
              priority_of_worst = of_int (pos 0xffff);
            })
            (omega arith) in
        ground arith
  ]

-- An index, if any, below `n`.
abbrev Within : ℕ → Option ℕ → Type 0
Within n none = Unit {0}
Within n (some i) = i < n

visit_pair-Within :
    (bs : List Beacon) (n j i : ℕ) (worst : Option ℕ)
    → i < n
    → j < n
    → Within n worst
    → Within n (visit_pair bs j i worst)
unfolding visit_pair candidate
visit_pair-Within bs n j i worst hi hj h = ground arith

inner_loop-Within :
    (bs : List Beacon) (n j i : ℕ) (worst : Option ℕ)
    → i < n
    → j < n
    → Within n worst
    → Within n (inner_loop bs j i worst)
unfolding inner_loop
inner_loop-Within bs n j zero worst hi hj h = h
inner_loop-Within bs n j (suc i) worst hi hj h =
    inner_loop-Within bs n j i (visit_pair bs j i worst) (omega arith) hj
      (visit_pair-Within bs n j i worst (omega arith) hj h)

outer_loop-Within :
    (bs : List Beacon) (n j : ℕ) (worst : Option ℕ)
    → j < n
    → Within n worst
    → Within n (outer_loop bs j worst)
unfolding outer_loop
outer_loop-Within bs n zero worst hj h = h
outer_loop-Within bs n (suc j) worst hj h =
    outer_loop-Within bs n j _ (omega arith)
      (ground (arith, inner_loop-Within bs n (suc j) (suc j) worst hj hj h))

age_loop-Within :
    (bs : List Beacon) (n k i : ℕ) (s : Ages)
    → i + n ≤ k
    → Within k s.oldest_idx
    → Within k (age_loop bs n i s).oldest_idx
unfolding age_loop visit_age
age_loop-Within bs zero k i s le h = h
age_loop-Within bs (suc n) k i s le h =
    age_loop-Within bs n k (i + 1) (visit_age bs i s) (omega arith) (ground arith)

-- What a filter does to a list that holds an AP too many: it takes one AP out, or nothing.
abbrev TakesAp : Rctx → Rctx → Type 0
TakesAp r q = Removed r q × (q.num_ap + 1 ≡ r.num_ap)

abbrev FiltersAp : Rctx → Rctx × Bool → Type 0
FiltersAp r (q, true) = TakesAp r q
FiltersAp r (q, false) = q ≡ r

module _ (r : Rctx) (h : ApsFirst r.num_ap r.beacon) (some_ap : 0 < r.num_ap) where
  remove_one-TakesAp :
      (i : ℕ) → i < r.num_ap → ((remove_beacon r i).1 ≡ success) × TakesAp r (remove_beacon r i).0
  remove_one-TakesAp i lt =
      let (done, removed, aps) =
        remove_beacon-Removed r i h (omega (arith, ApsFirst-le-length r.num_ap r.beacon h)) in
      (done, (removed, ground arith))

  removed_at-FiltersAp : (o : Option ℕ) → Within r.num_ap o → FiltersAp r (removed_at r o)
  removed_at-FiltersAp none w = refl
  removed_at-FiltersAp (some i) w = rw ((remove_one-TakesAp i w).0) ((remove_one-TakesAp i w).1)

  remove_virtual_ap-FiltersAp : FiltersAp r (remove_virtual_ap r)
  unfolding remove_virtual_ap worst_vap
  remove_virtual_ap-FiltersAp = ground (
    arith,
    removed_at-FiltersAp (outer_loop r.beacon (r.num_ap - 1) none)
        (outer_loop-Within r.beacon r.num_ap (r.num_ap - 1) none (omega arith) tt),
  )

  oldest_removed-FiltersAp : (o : Option ℕ) → Within r.num_ap o → FiltersAp r (oldest_removed r o)
  oldest_removed-FiltersAp none w = refl
  oldest_removed-FiltersAp (some i) w = (remove_one-TakesAp i w).1

  remove_oldest_ap-FiltersAp : FiltersAp r (remove_oldest_ap r)
  unfolding remove_oldest_ap
  remove_oldest_ap-FiltersAp =
      let start : Ages = record { oldest_idx = none; oldest_age = 0; youngest_age = 0xFFFFFFFF } in
      ground (
        arith,
        oldest_removed-FiltersAp (age_loop r.beacon r.num_ap 0 start).oldest_idx
            (age_loop-Within r.beacon r.num_ap r.num_ap 0 start (omega arith) tt),
      )

module _ (r : Rctx) (h : ApsFirst r.num_ap r.beacon) (some_ap : 0 < r.num_ap) where
  remove_ap-TakesAp :
      (i : ℕ) → i < r.num_ap → ((remove_ap r i).1 ≡ success) × TakesAp r (remove_ap r i).0
  unfolding remove_ap
  remove_ap-TakesAp i lt = ground (
    arith,
    remove_virtual_ap-FiltersAp r h some_ap,
    remove_oldest_ap-FiltersAp r h some_ap,
    remove_one-TakesAp r h some_ap i lt,
  )

-- What the plugin leaves in each case.
abbrev pub Trims : Rctx → Rctx × Status → Type 0
Trims r (q, success) =
    (r.session.config.max_ap_beacons < r.num_ap) × Removed r q × (q.num_ap + 1 ≡ r.num_ap)
Trims r (q, error) = (r.num_ap ≤ r.session.config.max_ap_beacons) × Reordered r q

-- A list with the APs first: with more APs than the configuration allows, exactly one AP is taken
-- out, the APs stay in front and the call succeeds; otherwise the call fails, no beacon is taken out,
-- and the APs stay in front. The session and the header stay as they are.
pub ap_remove_worst-Trims : (r : Rctx) → ApsFirst r.num_ap r.beacon → Trims r (ap_remove_worst r)
unfolding ap_remove_worst
ap_remove_worst-Trims r h =
    let (kept, within) = set_priorities-Reordered r h in
    let r1 = (set_priorities r).0 in
    elim (dec_lt r1.session.config.max_ap_beacons r1.num_ap) [
      | no fits ↦ ground arith
      | yes over ↦
          let (done, (removed, aps)) =
            remove_ap-TakesAp r1 kept.ordered (omega arith) (set_priorities r).1 (ground arith) in
          ground arith
    ]
